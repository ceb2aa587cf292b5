-- ===== src/Rbac/Staged.antt =====
-- What the loop that stages a new name (applyUpdateOrganization, applyUpdateTeam in
-- internal/cluster/raft/fsm_rbac.go) ends with, however many fields it is given.
use iot_edge_db.Prelude.{
  ◌≡◌, refl, inl, inr, ite, Bool, true, false, not, ◌&&◌, Option, none, some, List, [], ◌∷◌,
  GoString, Bool-cases, str_dec, bytes,
}
use iot_edge_db.Types.{UpdateNamedPayload}
use iot_edge_db.Rbac.Staging.{Staged, stage_name, stage_field, and_then, stage_all, is_field}

-- Either the name is the old one, or it is the payload's, and was free.
pub data IsStaged (p : UpdateNamedPayload) (old_name : GoString) (taken : Bool) (s : Staged)
    : Type 0 where
  kept : s.name_changed ≡ false → s.name ≡ old_name → IsStaged p old_name taken s
  renamed : s.name_changed ≡ true → s.name ≡ p.name → taken ≡ false → IsStaged p old_name taken s

abbrev pub IsStagedIfAny : UpdateNamedPayload → GoString → Bool → Option Staged → Type 0
IsStagedIfAny p old taken none = Unit
IsStagedIfAny p old taken (some s) = IsStaged p old taken s

module _ (p : UpdateNamedPayload) (old : GoString) (taken : Bool) where
  set_description :
      (s : Staged) (d : GoString)
      → IsStaged p old taken s
      → IsStaged p old taken (record s { description = d })
  set_description s d (kept a b) = kept a b
  set_description s d (renamed a b c) = renamed a b c

  set_enabled :
      (s : Staged) (b : Bool)
      → IsStaged p old taken s
      → IsStaged p old taken (record s { enabled = b })
  set_enabled s e (kept a b) = kept a b
  set_enabled s e (renamed a b c) = renamed a b c

  stage_name-IsStaged :
      (s : Staged) → IsStaged p old taken s → IsStagedIfAny p old taken (stage_name p old taken s)
  stage_name-IsStaged s i =
      elim (Bool-cases (ite (str_dec p.name old) false true && not s.name_changed)) [
        | inr h ↦ rw h i
        | inl h ↦ elim (Bool-cases taken) [
          | inl t ↦ rw (h, t) tt
          | inr t ↦ rw (h, t) (renamed refl refl refl)
        ]
      ]

  stage_field-IsStaged :
      (field : GoString) (s : Staged)
      → IsStaged p old taken s
      → IsStagedIfAny p old taken (stage_field p old taken field s)
  stage_field-IsStaged field s i = elim (Bool-cases (is_field (bytes "name") field)) [
    | inl h ↦ rw h (stage_name-IsStaged s i)
    | inr h ↦ elim (Bool-cases (is_field (bytes "description") field)) [
      | inl k ↦ rw (h, k) (set_description s p.description i)
      | inr k ↦ elim (Bool-cases (is_field (bytes "enabled") field)) [
        | inl e ↦ rw (h, k, e) (set_enabled s p.enabled i)
        | inr e ↦ rw (h, k, e) i
      ]
    ]
  ]

  and_then-IsStaged :
      (o : Option Staged) (k : Staged → Option Staged)
      → IsStagedIfAny p old taken o
      → ((s : Staged) → IsStaged p old taken s → IsStagedIfAny p old taken (k s))
      → IsStagedIfAny p old taken (and_then o k)
  and_then-IsStaged none k i h = tt
  and_then-IsStaged (some s) k i h = h s i

  pub stage_all-IsStaged :
      (fields : List GoString) (s : Staged)
      → IsStaged p old taken s
      → IsStagedIfAny p old taken (stage_all p old taken fields s)
  unfolding stage_all
  stage_all-IsStaged [] s i = i
  stage_all-IsStaged (field ∷ rest) s i =
      and_then-IsStaged (stage_field p old taken field s) (stage_all p old taken rest)
        (stage_field-IsStaged field s i) (λ t j. stage_all-IsStaged rest t j)
