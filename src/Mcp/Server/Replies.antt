-- ===== src/Mcp/Server/Replies.antt =====
-- What the server sends for a message.
use open_agent_lock.Common.{
  Fields, has_string, own, arr, cons, nil, Json, List, Option, Text, [], codes, false, true,
  string_text, none, null, nullish, obj, optional_member, present, some, str, ◌++◌, ◌∷◌, ◌≡◌, ◌⊎◌,
}
use open_agent_lock.Mcp.Server.Tools.{mcp_text}
use open_agent_lock.Mcp.Server.{Talk, World, error_message, result_message}

abbrev pub method_of : Json → Option Json
method_of req = optional_member (codes "method") (some req)

abbrev pub id_of : Json → Option Json
id_of req = optional_member (codes "id") (some req)

abbrev pub IsNamed : Option Json → Text → Type 0
IsNamed method t = method ≡ some (str t)

-- The methods that have an answer, with an id or without.
abbrev pub IsServed : Option Json → Type 0
IsServed m =
    IsNamed m (codes "initialize")
    ⊎ (IsNamed m (codes "tools/list")
        ⊎ (IsNamed m (codes "tools/call") ⊎ IsNamed m (codes "shutdown")))

-- The methods that have none.
abbrev pub IsQuiet : Option Json → Type 0
IsQuiet m =
    IsNamed m (codes "notifications/initialized")
    ⊎ (IsNamed m (codes "initialized") ⊎ IsNamed m (codes "exit"))

-- The error of a conversion that throws: it is sent if there is an id.
abbrev pub thrown : World → Option Json → List Json
thrown w none = []
thrown w (some id) = error_message id (codes "-32603") w.convert_message ∷ []

-- The server tells who it is and which protocol it speaks.
abbrev pub Introduces : Json → Type 0
Introduces v =
    (fs : Fields) × (v ≡ obj fs)
    × (own (codes "protocolVersion") fs ≡ some (str (codes "2024-11-05")))
    × (own (codes "tools") fs ≡ none)

-- A list of tools, with the names of the two there are.
abbrev pub Lists : Json → Type 0
Lists v =
    (fs a b : Fields) × (v ≡ obj fs)
    × (own (codes "tools") fs ≡ some (arr (cons (obj a) (cons (obj b) nil))))
    × (own (codes "name") a ≡ some (str (codes "agentlock_status")))
    × (own (codes "name") b ≡ some (str (codes "agentlock_recent_decisions")))

abbrev Decided : Type 0 → Type 0
Decided P = P ⊎ (¬ P)

abbrev name_in : Option Json → Option Json
name_in params = optional_member (codes "name") params

module _ (w : World) where
  -- An error that names a value, or that of the conversion of the value.
  abbrev pub UnknownSends : Option Json → Text → Text → Json → List Json → Type 0
  UnknownSends id code front v ms =
      ((has_string v ≡ true)
        × (ms ≡ error_message (nullish id null) code (front ++ string_text v) ∷ []))
      ⊎ ((has_string v ≡ false) × (ms ≡ thrown w (present id)))

  -- A call of a tool: a result for the two names that there are, else an error, with the name if it has a
  -- text.
  abbrev pub CallSends : Option Json → Option Json → List Json → Type 0
  CallSends id name ms =
      ((IsNamed name (codes "agentlock_status") ⊎ IsNamed name (codes "agentlock_recent_decisions"))
        × ((text : Text) × (ms ≡ result_message (nullish id null) (mcp_text text) ∷ [])))
      ⊎ ((¬ IsNamed name (codes "agentlock_status"))
          × (¬ IsNamed name (codes "agentlock_recent_decisions"))
          × UnknownSends id (codes "-32602") (codes "unknown tool: ")
              (nullish (present name) (str (codes "<missing>"))) ms)

  -- A method that is not known: an error if there is an id.
  abbrev pub OtherSends : Option Json → Option Json → List Json → Type 0
  OtherSends id method ms =
      ((present id ≡ none) × (ms ≡ []))
      ⊎ (((i : Json) × (present id ≡ some i))
          × UnknownSends id (codes "-32601") (codes "method not found: ")
              (nullish method (str (codes "undefined"))) ms)

  -- What is sent for an id, a method and parameters.
  abbrev pub Sends : Option Json → Option Json → Option Json → List Json → Type 0
  Sends id m params ms =
      (IsNamed m (codes "initialize")
        × ((v : Json) × (ms ≡ result_message (nullish id null) v ∷ []) × Introduces v))
      ⊎ ((IsNamed m (codes "tools/list")
            × ((v : Json) × (ms ≡ result_message (nullish id null) v ∷ []) × Lists v))
          ⊎ ((IsNamed m (codes "tools/call") × CallSends id (name_in params) ms)
              ⊎ ((IsNamed m (codes "shutdown") × (ms ≡ result_message (nullish id null) null ∷ []))
                  ⊎ ((IsQuiet m × (ms ≡ []))
                      ⊎ ((¬ IsServed m) × (¬ IsQuiet m) × OtherSends id m ms)))))

  -- Some messages are sent, as is said of them.
  abbrev pub SendsSome : (List Json → Type 0) → Talk → Talk → Type 0
  SendsSome P s t = (ms : List Json) × (t.sent ≡ s.sent ++ ms) × P ms
