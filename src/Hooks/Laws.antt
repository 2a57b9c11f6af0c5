-- ===== src/Hooks/Laws.antt =====
-- What every shim does, from what its reading of an answer does: when it blocks, and that
-- everything that goes wrong lets the tool call pass.
use open_agent_lock.Common.{
  Bool, Bool-cases, JsError, Json, List, Option, Result, Result-cases, Text, [], ap, arith,
  if◌then◌else◌, err, false, inl, inr, none, ok, refl, some, sym, true, type_error, ℕ, ◌∙◌, ◌∷◌,
  ◌↔◌, ◌≡◌, ◌⊎◌,
}
use open_agent_lock.Daemon.{Reply, answer, is_success, unreachable}
use open_agent_lock.Hooks.{
  Answer, Host, Outcome, Shim, code, concludes, dispatch, ends, forward, hook_url, is_blank, knows,
  quiet, receive, run_shim, uncaught,
}

-- The arguments name no event of the shim.
abbrev pub IsUsageError : Shim → List Text → Type 0
IsUsageError s [] = Unit
IsUsageError s (event ∷ rest) = knows s event ≡ false

-- The daemon is asked about the event, and answers with success and the JSON value `v`.
pub record Consults (s : Shim) (h : Host) (v : Json) : Type 0 where
  pub event : Text
  pub rest : List Text
  pub payload : Json
  pub status : ℕ
  pub given : h.argv ≡ event ∷ rest
  pub known : knows s event ≡ true
  pub filled : is_blank h.stdin ≡ false
  pub parsed : h.parse h.stdin ≡ ok payload
  pub answered : h.fetch (hook_url s h event) h.stdin ≡ answer status (ok v)
  pub success : is_success status ≡ true

-- A reading of answers that blocks just those that `Denies` names, and throws just at those that
-- `Throws` names.
pub record Reads (s : Shim) (Denies Throws : Json → Type 0) : Type 0 where
  pub denied :
      (f : Json → Text) (v : Json)
      → Denies v
      → (a : Answer) × (s.decide f v ≡ ok a) × (a.status ≡ 2)
  pub read :
      (f : Json → Text) (v : Json) (a : Answer)
      → s.decide f v ≡ ok a
      → (a.status ≡ 0) ⊎ ((a.status ≡ 2) × Denies v)
  pub thrown : (f : Json → Text) (v : Json) (e : JsError) → s.decide f v ≡ err e → Throws v
  pub throws : (f : Json → Text) (v : Json) → Throws v → s.decide f v ≡ err type_error
  pub offline_passes : (f : Json → Text) → (s.offline f).status ≡ 0

argv_cases :
    (argv : List Text) → (argv ≡ []) ⊎ ((event : Text) × (rest : List Text) × (argv ≡ event ∷ rest))
argv_cases [] = inl refl
argv_cases (event ∷ rest) = inr (event, rest, refl)

module _ (s : Shim) (h : Host) where
  receive_answered :
      (event : Text) (posted : Option (Text × Text)) (r : Reply) (status : ℕ) (v : Json)
      → r ≡ answer status (ok v)
      → is_success status ≡ true
      → receive s h event posted r ≡ concludes posted (s.decide h.stringify v)
  unfolding receive
  receive_answered event posted r status v e t = rw e (rw t refl)

  forward_parsed :
      (event : Text) (r : Result Text Json) (payload v : Json) (status : ℕ)
      → r ≡ ok payload
      → h.fetch (hook_url s h event) h.stdin ≡ answer status (ok v)
      → is_success status ≡ true
      → forward s h event r
        ≡ concludes (some (hook_url s h event, h.stdin)) (s.decide h.stringify v)
  unfolding forward
  forward_parsed event r payload v status e answered t =
      rw e (receive_answered event _ _ status v answered t)

  -- An answer with success is read, and nothing else decides the outcome.
  pub run_shim-Consults :
      (v : Json) (c : Consults s h v)
      → run_shim s h ≡ concludes (some (hook_url s h c.event, h.stdin)) (s.decide h.stringify v)
  unfolding run_shim
  run_shim-Consults v c =
      ap (dispatch s h) c.given
      ∙ ap (λ b. if b then elsewhere (is_blank h.stdin) else ends none misuse) c.known
      ∙ ap elsewhere c.filled
      ∙ forward_parsed c.event (h.parse h.stdin) c.payload v c.status c.parsed c.answered c.success
    where
      misuse : Answer
      misuse = record { stdout = []; stderr = s.usage; status = 2 }

      elsewhere : Bool → Outcome
      elsewhere b = if b then ends none quiet else forward s h c.event (h.parse h.stdin)

  -- Every run: a usage error, an answer that is read, or a run that lets the call pass.
  data Course : Type 0 where
    usage_error : IsUsageError s h.argv → (run_shim s h).exit ≡ code 2 → Course
    consulted : (v : Json) → Consults s h v → Course
    passes : (run_shim s h).exit ≡ code 0 → Course

  receive-passes :
      (offline_passes : (s.offline h.stringify).status ≡ 0) (event : Text)
      (posted : Option (Text × Text)) (r : Reply)
      → ((status : ℕ) × (v : Json) × (r ≡ answer status (ok v)) × (is_success status ≡ true))
        ⊎ ((receive s h event posted r).exit ≡ code 0)
  unfolding receive
  receive-passes off event posted unreachable = inr (ap code off)
  receive-passes off event posted (answer status (err m)) = inr (ground arith)
  receive-passes off event posted (answer status (ok v)) = elim (Bool-cases (is_success status)) [
    | inl t ↦ inl (status, v, refl, t)
    | inr t ↦ inr (ground arith)
  ]

  forward-passes :
      (event : Text)
      → (s.offline h.stringify).status ≡ 0
      → ((payload : Json) × (status : ℕ) × (v : Json) × (h.parse h.stdin ≡ ok payload)
          × (h.fetch (hook_url s h event) h.stdin ≡ answer status (ok v))
          × (is_success status ≡ true))
        ⊎ ((forward s h event (h.parse h.stdin)).exit ≡ code 0)
  unfolding forward
  forward-passes event off = elim (Result-cases (h.parse h.stdin)) [
    | inr (m, e) ↦ inr (rw e refl)
    | inl (payload, e) ↦
        elim (receive-passes off event (some (hook_url s h event, h.stdin))
          (h.fetch (hook_url s h event) h.stdin)) [
            | inl (status, v, answered, t) ↦ inl (payload, status, v, e, answered, t)
            | inr passed ↦ inr (rw e passed)
          ]
  ]

  dispatch-passes :
      (event : Text) (rest : List Text)
      → (s.offline h.stringify).status ≡ 0
      → h.argv ≡ event ∷ rest
      → (knows s event ≡ false) × ((dispatch s h (event ∷ rest)).exit ≡ code 2)
        ⊎ ((v : Json) × Consults s h v)
        ⊎ ((dispatch s h (event ∷ rest)).exit ≡ code 0)
  unfolding dispatch
  dispatch-passes event rest off given = elim (Bool-cases (knows s event)) [
    | inr n ↦ inl (n, rw n refl)
    | inl y ↦ elim (Bool-cases (is_blank h.stdin)) [
      | inl b ↦ inr (inr (rw (y, b) refl))
      | inr b ↦ elim (forward-passes event off) [
        | inr passed ↦ inr (inr (rw (y, b) passed))
        | inl (payload, status, v, parsed, answered, t) ↦ inr (
            inl (
              v,
              record {
                event = event;
                rest = rest;
                payload = payload;
                status = status;
                given = given;
                known = y;
                filled = b;
                parsed = parsed;
                answered = answered;
                success = t;
              },
            ))
      ]
    ]
  ]

  course : (s.offline h.stringify).status ≡ 0 → Course
  unfolding run_shim
  course off = elim (argv_cases h.argv) [
    | inl none_given ↦ usage_error (rw none_given tt) (rw (none_given, dispatch) refl)
    | inr (event, rest, given) ↦
        let same : dispatch s h h.argv ≡ dispatch s h (event ∷ rest) = ap (dispatch s h) given in
        elim (dispatch-passes event rest off given) [
          | inl (n, two) ↦ usage_error (rw given n) (ap (λ o. o.exit) same ∙ two)
          | inr (inl (v, c)) ↦ consulted v c
          | inr (inr passed) ↦ passes (ap (λ o. o.exit) same ∙ passed)
        ]
  ]

  usage_error-exit : IsUsageError s h.argv → (run_shim s h).exit ≡ code 2
  unfolding run_shim dispatch
  usage_error-exit u = elim (argv_cases h.argv) [
    | inl given ↦ rw (given, dispatch) refl
    | inr (event, rest, given) ↦
        let n : knows s event ≡ false = rw given at u in
        ap (λ a. (dispatch s h a).exit) given ∙ rw n refl
  ]

  module _ (Denies Throws : Json → Type 0) (r : Reads s Denies Throws) where
    consulted-blocks : (v : Json) → Consults s h v → (run_shim s h).exit ≡ code 2 → Denies v
    consulted-blocks v c e =
        let exit_is = ap (λ o. o.exit) (run_shim-Consults v c) in
        elim (Result-cases (s.decide h.stringify v)) [
          | inr (x, thrown) ↦
              let out : uncaught ≡ code 2 = sym (exit_is ∙ rw thrown refl) ∙ e in absurd (cc out)
          | inl (a, decided) ↦
              let out : code a.status ≡ code 2 = sym (exit_is ∙ rw decided refl) ∙ e in
              elim (r.read h.stringify v a decided) [
                | inl zero ↦ absurd (ground arith)
                | inr (two, d) ↦ d
              ]
        ]

    -- A shim blocks the tool call, by status 2, exactly if its arguments name no event of its own or
    -- the daemon was asked and answered with success that it denies.
    pub run_shim-blocks_iff :
        ((run_shim s h).exit ≡ code 2)
        ↔ (IsUsageError s h.argv ⊎ ((v : Json) × Consults s h v × Denies v))
    run_shim-blocks_iff = (
      (λ e. elim (course (r.offline_passes h.stringify)) [
        | usage_error u two ↦ inl u
        | passes zero ↦ absurd (ground arith)
        | consulted v c ↦ inr (v, c, consulted-blocks v c e)
      ]),
      (λ w. elim w [
        | inl u ↦ usage_error-exit u
        | inr (v, c, d) ↦
            let (a, decided, two) = r.denied h.stringify v d in
            ap (λ o. o.exit) (run_shim-Consults v c) ∙ rw decided (ap code two)
      ]),
    )

    consulted-throws : (v : Json) → Consults s h v → (run_shim s h).exit ≡ uncaught → Throws v
    consulted-throws v c e =
        let exit_is = ap (λ o. o.exit) (run_shim-Consults v c) in
        elim (Result-cases (s.decide h.stringify v)) [
          | inr (x, thrown) ↦ r.thrown h.stringify v x thrown
          | inl (a, decided) ↦
              let out : code a.status ≡ uncaught = sym (exit_is ∙ rw decided refl) ∙ e in
              absurd (cc out)
        ]

    -- A shim throws exactly if the daemon answers with success what its reading throws at.
    pub run_shim-uncaught_iff :
        ((run_shim s h).exit ≡ uncaught) ↔ ((v : Json) × Consults s h v × Throws v)
    run_shim-uncaught_iff = (
      (λ e. elim (course (r.offline_passes h.stringify)) [
        | usage_error u two ↦ absurd (ground arith)
        | passes zero ↦ absurd (ground arith)
        | consulted v c ↦ (v, c, consulted-throws v c e)
      ]),
      (λ (v, c, t). ap (λ o. o.exit) (run_shim-Consults v c) ∙ rw (r.throws h.stringify v t) refl),
    )
