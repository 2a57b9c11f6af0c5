-- ===== src/Rules/Add.antt =====
-- Adding a registry and removing it again.
use open_agent_lock.Common.{
  Bool, ◌||◌, Bool-cases, List, Option, Result, Text, [], arith, err, false, inl, inr, none,
  nullish, ok, refl, some, sym, text_eq, text_eq_refl, true, ◌++◌, ◌∷◌, ◌≡◌, ◌⊎◌, ap, ◌∙◌, subst,
}
use open_agent_lock.Rules.Listing.{Clone}
use open_agent_lock.Rules.{
  Disk, Git, RegistryEntry, RulesError, already_added, clone_failed, finish_add, is_registered,
  read_registries, removed, inside, remove_clone, run_rules_add, run_rules_remove, set_clone,
  without_first, write_registries,
}

-- No directory has changed but those at or below the one of the id.
abbrev pub SparesOthers : Text → Disk → Disk → Type 0
SparesOthers id d d' =
    (d'.place ≡ d.place)
    × ((j : Text) → inside (d.place id) (d.place j) ≡ false → d'.clones j ≡ d.clones j)

or_false : (a b : Bool) → (a || b) ≡ false → a ≡ false
or_false false b h = refl
or_false true b h = absurd (cc h)

set_clone-SparesOthers :
    (id : Text) (c : Option Clone) (d : Disk) → SparesOthers id d (set_clone id c d)
set_clone-SparesOthers id c d = (
  refl,
  λ j n. let apart : text_eq (d.place j) (d.place id) ≡ false = or_false _ _ n in rw apart refl,
)

remove_clone-SparesOthers : (id : Text) (d : Disk) → SparesOthers id d (remove_clone id d)
remove_clone-SparesOthers id d = (refl, λ j n. rw n refl)

remove_clone-here : (id : Text) (d : Disk) → (remove_clone id d).clones id ≡ none
remove_clone-here id d = rw (text_eq_refl (d.place id)) refl

-- The ways in which an addition of an entry ends.
abbrev pub AddEnds : RegistryEntry → Disk → Disk × Result RulesError RegistryEntry → Type 0
AddEnds entry d (d', r) =
    ((is_registered entry.id (read_registries d) ≡ true)
      × (r ≡ err (already_added entry.id))
      × (d' ≡ d))
    ⊎ ((is_registered entry.id (read_registries d) ≡ false)
        × SparesOthers entry.id d d'
        × (((stderr : Text) × (r ≡ err (clone_failed stderr))
              × (d'.registries ≡ d.registries)
              × (d'.clones entry.id ≡ none))
            ⊎ ((r ≡ ok entry) × (read_registries d' ≡ read_registries d ++ entry ∷ []))))

finish_add-AddEnds :
    (entry : RegistryEntry) (d : Disk) (r : Option Clone × Result Text (Unit {0}))
    → is_registered entry.id (read_registries d) ≡ false
    → AddEnds entry d (finish_add entry d r)
finish_add-AddEnds entry d (c, err stderr) f = inr (
  f,
  remove_clone-SparesOthers entry.id d,
  inl (stderr, refl, refl, remove_clone-here entry.id d),
)
finish_add-AddEnds entry d (c, ok done) f =
    inr (f, set_clone-SparesOthers entry.id c d, inr (refl, refl))

module _ (git : Git) (derive : Text → Text) (now url : Text) (name : Option Text) where
  abbrev pub new_entry : RegistryEntry
  new_entry = record { id = nullish name (derive url); url = url; added_at = now }

  pub run_rules_add-ends :
      (d : Disk) → AddEnds new_entry d (run_rules_add git derive now url name d)
  unfolding run_rules_add
  run_rules_add-ends d = elim (Bool-cases (is_registered new_entry.id (read_registries d))) [
    | inl t ↦
        let refused : run_rules_add git derive now url name d
            ≡ (d, err (already_added new_entry.id)) =
          rw t refl in
        subst (AddEnds new_entry d) (sym refused) (inl (t, refl, refl))
    | inr f ↦
        let cloned = git.clone url (d.clones new_entry.id) in
        let tried : run_rules_add git derive now url name d ≡ finish_add new_entry d cloned =
          rw f refl in
        subst (AddEnds new_entry d) (sym tried) (finish_add-AddEnds new_entry d cloned f)
  ]

without_first-last :
    (rs : List RegistryEntry) (r : RegistryEntry)
    → is_registered r.id rs ≡ false
    → without_first r.id (rs ++ r ∷ []) ≡ some rs
unfolding without_first
without_first-last [] r h = rw (text_eq_refl r.id, without_first) refl
without_first-last (s ∷ rs) r h = elim (Bool-cases (text_eq s.id r.id)) [
  | inl t ↦ absurd (ground (arith, t, h))
  | inr f ↦ rw (f, without_first) (rw (without_first-last rs r (rw f at h)) refl)
]

abbrev pub Restored : Text → Disk → Disk × Result RulesError (Unit {0}) → Type 0
Restored id d (d', r) =
    (r ≡ ok tt)
    × (read_registries d' ≡ read_registries d)
    × (d'.clones id ≡ none)
    × SparesOthers id d d'

run_rules_remove-last :
    (d d' : Disk) (entry : RegistryEntry)
    → is_registered entry.id (read_registries d) ≡ false
    → read_registries d' ≡ read_registries d ++ entry ∷ []
    → SparesOthers entry.id d d'
    → Restored entry.id d (run_rules_remove entry.id d')
unfolding run_rules_remove
run_rules_remove-last d d' entry apart added spares =
    let rest : without_first entry.id (read_registries d') ≡ some (read_registries d) =
      ap (without_first entry.id) added ∙ without_first-last (read_registries d) entry apart in
    let left = write_registries (read_registries d) d' in
    subst (λ o. Restored entry.id d (removed entry.id d' o)) (sym rest)
      (
        refl,
        refl,
        remove_clone-here entry.id left,
        (
          spares.0,
          λ j n.
              let n' : inside (d'.place entry.id) (d'.place j) ≡ false =
                ap (λ (at : Text → Text). inside (at entry.id) (at j)) spares.0 ∙ n in
              (remove_clone-SparesOthers entry.id left).1 j n' ∙ spares.1 j n,
        ),
      )

module _ (git : Git) (derive : Text → Text) (now url : Text) (name : Option Text) where
  -- Removing a registry that was just added succeeds, and gives back the list of the registries as it
  -- was; its directory is gone, and the directories that are not at or below it are as they were.
  pub run_rules_remove-run_rules_add :
      (d : Disk)
      → (run_rules_add git derive now url name d).1 ≡ ok (new_entry git derive now url name)
      → Restored
          (nullish name (derive url))
          d
          (run_rules_remove (nullish name (derive url)) (run_rules_add git derive now url name d).0)
  run_rules_remove-run_rules_add d h = elim (run_rules_add-ends git derive now url name d) [
    | inl (t, refused, same) ↦ absurd (cc (h, refused))
    | inr (f, spares, inl (stderr, failed, kept, gone)) ↦ absurd (cc (h, failed))
    | inr (f, spares, inr (done, added)) ↦
        run_rules_remove-last d (run_rules_add git derive now url name d).0
          (new_entry git derive now url name) f added spares
  ]
