-- ===== src/Mcp.antt =====
-- The stdio proxy and the stdio server of cli/src/commands/mcp-proxy.ts and mcp-server.ts.
pub mod LineBuffer
pub mod ProxyArgs
pub mod Proxy
pub mod Server
