-- ===== src/Rules/Unique.antt =====
-- The ids of the registries are apart.
use open_agent_lock.Common.{
  Bool-cases, Json, List, Option, Option-cases, Result, Text, [], arith, false, inl, inr, none,
  nullish, ok, refl, some, sym, text_eq, text_eq_iff, ◌++◌, ◌∷◌, ◌≡◌, subst, err,
}
use open_agent_lock.Rules.Listing.{Clone}
use open_agent_lock.Rules.Search.{run_rules_search}
use open_agent_lock.Rules.{
  Disk, Git, RegistryEntry, ensure_upstream_registered, is_registered, read_registries,
  run_rules_add, run_rules_remove, run_rules_sources, run_rules_sync, set_clone, sync_all, sync_one,
  without_first, upstream, finish_add, removed, upstream_id,
}

-- No two entries have one id.
abbrev pub Distinct : List RegistryEntry → Type 0
Distinct [] = Unit
Distinct (r ∷ rs) = (is_registered r.id rs ≡ false) × Distinct rs

is_registered-append :
    (id : Text) (rs : List RegistryEntry) (r : RegistryEntry)
    → is_registered id rs ≡ false
    → text_eq r.id id ≡ false
    → is_registered id (rs ++ r ∷ []) ≡ false
is_registered-append id [] r h n = rw n refl
is_registered-append id (s ∷ rs) r h n = ground (arith, is_registered-append id rs r)

text_eq_swap : (s t : Text) → text_eq s t ≡ false → text_eq t s ≡ false
text_eq_swap s t h = elim (Bool-cases (text_eq t s)) [
  | inr f ↦ f
  | inl e ↦ absurd (cc (h, (text_eq_iff s t).1 (sym ((text_eq_iff t s).0 e))))
]

append-Distinct :
    (rs : List RegistryEntry) (r : RegistryEntry)
    → Distinct rs
    → is_registered r.id rs ≡ false
    → Distinct (rs ++ r ∷ [])
append-Distinct [] r h n = (refl, tt)
append-Distinct (s ∷ rs) r (apart, h) n =
    ground
      (arith, is_registered-append s.id rs r apart, text_eq_swap s.id r.id, append-Distinct rs r h)

without_first-is_registered :
    (id j : Text) (rs others : List RegistryEntry)
    → without_first id rs ≡ some others
    → is_registered j rs ≡ false
    → is_registered j others ≡ false
unfolding without_first
without_first-is_registered id j [] others e h = absurd (cc e)
without_first-is_registered id j (r ∷ rs) others e h = elim (Bool-cases (text_eq r.id id)) [
  | inl t ↦ ground arith
  | inr f ↦ elim (Option-cases (without_first id rs)) [
    | inl n ↦ ground arith
    | inr (kept, k) ↦ ground (arith, without_first-is_registered id j rs kept k)
  ]
]

without_first-Distinct :
    (id : Text) (rs others : List RegistryEntry)
    → without_first id rs ≡ some others
    → Distinct rs
    → Distinct others
unfolding without_first
without_first-Distinct id [] others e h = absurd (cc e)
without_first-Distinct id (r ∷ rs) others e h = elim (Bool-cases (text_eq r.id id)) [
  | inl t ↦ ground arith
  | inr f ↦ elim (Option-cases (without_first id rs)) [
    | inl n ↦ absurd (ground arith)
    | inr (kept, k) ↦
        let whole : r ∷ kept ≡ others = ground arith in
        subst Distinct whole (
          without_first-is_registered id r.id rs kept k h.0,
          without_first-Distinct id rs kept k h.1,
        )
  ]
]

abbrev pub Sound : Disk → Type 0
Sound d = Distinct (read_registries d)

ensure_upstream_registered-Sound :
    (now : Text) (d : Disk) → Sound d → Sound (ensure_upstream_registered now d)
unfolding ensure_upstream_registered
ensure_upstream_registered-Sound now d h =
    elim (Bool-cases (is_registered upstream_id (read_registries d))) [
      | inl t ↦ rw t h
      | inr f ↦ rw f (append-Distinct (read_registries d) (upstream now) h f)
    ]

sync_all-registries :
    (git : Git) (rs : List RegistryEntry) (d : Disk)
    → (sync_all git rs d).0.registries ≡ d.registries
unfolding sync_all
sync_all-registries git [] d = refl
sync_all-registries git (r ∷ rs) d =
    sync_all-registries git rs (set_clone r.id (sync_one git r (d.clones r.id)).0 d)

finish_add-Sound :
    (entry : RegistryEntry) (d : Disk) (r : Option Clone × Result Text (Unit {0}))
    → Sound d
    → is_registered entry.id (read_registries d) ≡ false
    → Sound (finish_add entry d r).0
finish_add-Sound entry d (c, err stderr) h n = h
finish_add-Sound entry d (c, ok done) h n = append-Distinct (read_registries d) entry h n

run_rules_add-Sound :
    (git : Git) (derive : Text → Text) (now url : Text) (name : Option Text) (d : Disk)
    → Sound d
    → Sound (run_rules_add git derive now url name d).0
unfolding run_rules_add
run_rules_add-Sound git derive now url name d h =
    let id = nullish name (derive url) in
    elim (Bool-cases (is_registered id (read_registries d))) [
      | inl t ↦ rw t h
      | inr f ↦ rw f (finish_add-Sound _ d (git.clone url (d.clones id)) h f)
    ]

removed-Sound :
    (id : Text) (d : Disk) (o : Option (List RegistryEntry))
    → without_first id (read_registries d) ≡ o
    → Sound d
    → Sound (removed id d o).0
removed-Sound id d none e h = h
removed-Sound id d (some rs) e h = without_first-Distinct id (read_registries d) rs e h

-- A subcommand that may write, with the time.
pub data Command : Type 0 where
  add : Text → Option Text → Command
  sources sync : Command
  remove : Text → Command
  search : Option Text → Command

module _ (git : Git) (derive lower : Text → Text) (load : Text → Option Json) where
  unfoldable pub perform : Text → Command → Disk → Disk
  perform now (add url name) d = (run_rules_add git derive now url name d).0
  perform now sources d = (run_rules_sources now d).0
  perform now sync d = (run_rules_sync git now d).0
  perform now (remove id) d = (run_rules_remove id d).0
  perform now (search query) d = (run_rules_search lower load now query d).0

  unfoldable pub perform_all : List (Text × Command) → Disk → Disk
  unfolding perform
  perform_all [] d = d
  perform_all ((now, c) ∷ cs) d = perform_all cs (perform now c d)

  perform-Sound : (now : Text) (c : Command) (d : Disk) → Sound d → Sound (perform now c d)
  unfolding perform run_rules_sources run_rules_sync run_rules_remove run_rules_search
  perform-Sound now (add url name) d h = run_rules_add-Sound git derive now url name d h
  perform-Sound now sources d h = ensure_upstream_registered-Sound now d h
  perform-Sound now sync d h =
      let d' = ensure_upstream_registered now d in
      subst (λ o. Distinct (nullish o [])) (sym (sync_all-registries git (read_registries d') d'))
        (ensure_upstream_registered-Sound now d h)
  perform-Sound now (remove id) d h = removed-Sound id d _ refl h
  perform-Sound now (search query) d h = ensure_upstream_registered-Sound now d h

  -- Whatever commands are run, in whatever order and whatever git does, the file never holds two
  -- registries of one id, if it held none at first.
  pub perform_all-Distinct :
      (cs : List (Text × Command)) (d : Disk)
      → Distinct (read_registries d)
      → Distinct (read_registries (perform_all cs d))
  unfolding perform_all
  perform_all-Distinct [] d h = h
  perform_all-Distinct ((now, c) ∷ cs) d h =
      perform_all-Distinct cs (perform now c d) (perform-Sound now c d h)
