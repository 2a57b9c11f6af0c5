-- ===== src/Mcp/Proxy/Records.antt =====
-- What the records of finished calls say: each is of a call that was let through.
use open_agent_lock.Common.{
  All, Fields, Json, List, Option, Text, codes, obj, own, some, str, string_text, ◌++◌, ◌≡◌,
}
use mathlib.Core.List.{Memᴰ}
use mathlib.Core.List.Memᴰ
use open_agent_lock.Daemon.{Reply}
use open_agent_lock.Mcp.Proxy.{Pending, Proxy, Request, post_tool_use, pre_tool_use}
use open_agent_lock.Mcp.Proxy.Gate.{IsToolCall}
use open_agent_lock.Mcp.Proxy.Log.{Fate, released}
use open_agent_lock.Mcp.Proxy.Wire.{Link, tool_name_of}

module _ (P : Pending → Type 0) where
  abbrev AllPending : List (Text × Pending) → Type 0
  AllPending m = All (λ e. P e.1) m

module _ (link : Link) (done : List (Text × Fate)) where
  -- A call that was let through, with its id and parameters.
  abbrev pub LetThrough : Json → Option Json → Type 0
  LetThrough id params =
      (l : Text) × (r : Reply) × Memᴰ (l, released r) done × IsToolCall (link.parse l) id params

  abbrev Waits : Pending → Type 0
  Waits v =
      (id : Json) × (params : Option Json) × LetThrough id params
      × (v.name ≡ tool_name_of params)
      × (v.tool_use_id ≡ string_text id)

  -- A record names the tool and the id of a call that was let through.
  abbrev pub IsRecord : Request → Type 0
  IsRecord (pre_tool_use body) = Unit
  IsRecord (post_tool_use body) =
      (id : Json) × (params : Option Json) × LetThrough id params
      × ((fs : Fields) × (body ≡ obj fs)
          × (own (codes "tool_name") fs
              ≡ some (
                  str (
                    codes "mcp__"
                    ++ link.server_name
                    ++ codes "__"
                    ++ string_text (tool_name_of params))))
          × (own (codes "tool_use_id") fs ≡ some (str (string_text id))))

  abbrev Sound : Proxy → Type 0
  Sound p = AllPending Waits p.pending × All IsRecord p.requests
