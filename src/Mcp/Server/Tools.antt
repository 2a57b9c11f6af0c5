-- ===== src/Mcp/Server/Tools.antt =====
-- The constant answers of cli/src/commands/mcp-server.ts: what the server tells of itself and its tools.
use open_agent_lock.Common.{
  Elems, Fields, Json, Text, arr, codes, cons, end, field, nil, num, obj, str,
}

-- `{ [k]: v }`
abbrev only : Text → Json → Json
only k v = obj (field k v end)

abbrev server_info : Json
server_info = obj (
    field (codes "name") (str (codes "agentlock"))
      (field (codes "version") (str (codes "0.1.0")) end))

abbrev pub initialize_result : Json
initialize_result = obj (
    field (codes "protocolVersion") (str (codes "2024-11-05")) (
      field (codes "capabilities") (only (codes "tools") (obj end))
        (field (codes "serverInfo") server_info end)))

abbrev tool : Text → Text → Fields → Json
tool name description properties = obj (
    field (codes "name") (str name) (
      field (codes "description") (str description) (
        field (codes "inputSchema")
          (obj (
            field (codes "type") (str (codes "object")) (
              field (codes "properties") (obj properties)
                (field (codes "required") (arr nil) end))))
          end)))

abbrev limit_schema : Json
limit_schema = obj (
    field (codes "type") (str (codes "integer")) (
      field (codes "minimum") (num (codes "1")) (
        field (codes "maximum") (num (codes "100"))
          (field (codes "default") (num (codes "20")) end))))

abbrev tools : Elems
tools =
    cons
      (tool (codes "agentlock_status")
        (codes
          "Probe the OpenAgentLock daemon. Returns reachable=true/false plus the daemon's reported status. Read-only.")
        end)
      (cons
        (tool (codes "agentlock_recent_decisions")
          (codes
            "Return the last N entries from the OpenAgentLock ledger (verdicts, signers, tool names). Read-only. Defaults to 20, max 100.")
          (field (codes "limit") limit_schema end))
        nil)

abbrev pub tools_result : Json
tools_result = only (codes "tools") (arr tools)

-- `{ content: [{ type: "text", text }] }`
abbrev pub mcp_text : Text → Json
mcp_text text = only (codes "content") (
    arr (
      cons (obj (field (codes "type") (str (codes "text")) (field (codes "text") (str text) end)))
        nil))
