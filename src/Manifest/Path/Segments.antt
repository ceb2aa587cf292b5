-- ===== src/Manifest/Path/Segments.antt =====
-- The fields that strings.FieldsFunc cuts a path into (internal/cluster/raft/path_validation.go),
-- against a description of where a segment stands.
use mathlib.Core.Bool.{false≢true}
use mathlib.Core.List.{append_assoc}
use iot_edge_db.Prelude.{
  ℕ, ◌≡◌, refl, ap, sym, subst, ◌∙◌, Bool, true, false, Bool-cases, inl, inr, ◌⊎◌, List, [], ◌∷◌,
  ◌++◌, arith, GoString, str_dec, elem,
}
use iot_edge_db.Manifest.Path.{
  is_separator, dots, flush, fields_from, contains_dots, has_parent_traversal_segment,
}

-- What stands before a segment is empty or ends in a separator. The first argument says what an
-- empty rest means.
abbrev pub ends_segment : Bool → GoString → Bool
ends_segment b [] = b
ends_segment b (c ∷ s) = ends_segment (is_separator c) s

-- What stands after a segment is empty or begins with a separator.
abbrev pub begins_segment : GoString → Bool
begins_segment [] = true
begins_segment (c ∷ s) = is_separator c

abbrev is_nil : GoString → Bool
is_nil [] = true
is_nil (c ∷ s) = false

elem-flush :
    (field : GoString) (rest : List GoString)
    → elem str_dec dots rest ≡ true
    → elem str_dec dots (flush field rest) ≡ true
unfolding elem
elem-flush [] rest h = h
elem-flush (c ∷ s) rest h = ground arith

fields-after-dots :
    (post : GoString)
    → begins_segment post ≡ true
    → elem str_dec dots (fields_from dots post) ≡ true
unfolding fields_from elem str_dec
fields-after-dots [] h = refl
fields-after-dots (c ∷ s) h = rw h refl

is_nil-snoc : (field : GoString) (c : ℕ) → is_nil (field ++ c ∷ []) ≡ false
is_nil-snoc [] c = refl
is_nil-snoc (d ∷ field) c = refl

-- A segment `..` is one of the fields.
elem-fields :
    (pre post field : GoString)
    → ends_segment (is_nil field) pre ≡ true
    → begins_segment post ≡ true
    → elem str_dec dots (fields_from field (pre ++ (dots ++ post))) ≡ true
unfolding fields_from
elem-fields [] post [] hp hq = fields-after-dots post hq
elem-fields [] post (c ∷ s) hp hq = cc
elem-fields (c ∷ pre) post field hp hq = elim (Bool-cases (is_separator c)) [
  | inl s ↦ rw s (elem-flush field _ (elem-fields pre post [] (rw s at hp) hq))
  | inr s ↦ rw s (elem-fields pre post (field ++ c ∷ []) (rw (is_nil-snoc field c) (rw s at hp)) hq)
]

contains_dots_lem : (pre post : GoString) → contains_dots (pre ++ (dots ++ post)) ≡ true
unfolding contains_dots
contains_dots_lem [] post = refl
contains_dots_lem (c ∷ []) post = ground (arith, contains_dots_lem [] post)
contains_dots_lem (c ∷ d ∷ pre) post = ground (arith, contains_dots_lem (d ∷ pre) post)

-- Where a segment `..` stands in a path.
abbrev pub HasSegment : GoString → GoString → GoString → Type 0
HasSegment path pre post =
    (path ≡ pre ++ (dots ++ post)) × (ends_segment true pre ≡ true) × (begins_segment post ≡ true)

pub has_parent_of_segment :
    (path pre post : GoString) → HasSegment path pre post → has_parent_traversal_segment path ≡ true
unfolding has_parent_traversal_segment
has_parent_of_segment path pre post (e, hp, hq) =
    rw (e, contains_dots_lem pre post) (elem-fields pre post [] hp hq)

ends_segment-append :
    (b : Bool) (field : GoString) (c : ℕ) (pre : GoString)
    → is_separator c ≡ true
    → ends_segment true pre ≡ true
    → ends_segment b (field ++ c ∷ pre) ≡ true
ends_segment-append b [] c pre s h = subst (λ x. ends_segment x pre ≡ true) (sym s) h
ends_segment-append b (d ∷ field) c pre s h = ends_segment-append (is_separator d) field c pre s h

elem-flush-cases :
    (field : GoString) (rest : List GoString)
    → elem str_dec dots (flush field rest) ≡ true
    → (field ≡ dots) ⊎ (elem str_dec dots rest ≡ true)
unfolding elem
elem-flush-cases [] rest h = inr h
elem-flush-cases (c ∷ s) rest h = ground arith

abbrev Segment : GoString → Type 0
Segment path = (pre : GoString) × (post : GoString) × HasSegment path pre post

Segment-later :
    (field : GoString) (c : ℕ) (s : GoString)
    → is_separator c ≡ true
    → Segment s
    → Segment (field ++ c ∷ s)
Segment-later field c s h (pre, post, (e, hp, hq)) = (
  field ++ c ∷ pre,
  post,
  (
    ap (λ (t : GoString). field ++ c ∷ t) e ∙ sym (append_assoc field (c ∷ pre) (dots ++ post)),
    ends_segment-append true field c pre h hp,
    hq,
  ),
)

-- A field `..` is a segment of the path.
Segment-of_elem :
    (s field : GoString) → elem str_dec dots (fields_from field s) ≡ true → Segment (field ++ s)
unfolding fields_from
Segment-of_elem [] field h = elim (elem-flush-cases field [] h) [
  | inl e ↦ ([], [], (ap (λ (t : GoString). t ++ []) e, refl, refl))
  | inr e ↦ absurd (unfold elem in false≢true e)
]
Segment-of_elem (c ∷ s) field h = elim (Bool-cases (is_separator c)) [
  | inl t ↦ elim (elem-flush-cases field _ (rw t at h)) [
    | inl e ↦ ([], c ∷ s, (ap (λ (f : GoString). f ++ c ∷ s) e, refl, t))
    | inr e ↦ Segment-later field c s t (Segment-of_elem s [] e)
  ]
  | inr t ↦
      subst Segment (append_assoc field (c ∷ []) s)
        (Segment-of_elem s (field ++ c ∷ []) (rw t at h))
]

pub Segment-of_has_parent :
    (path : GoString) → has_parent_traversal_segment path ≡ true → Segment path
unfolding has_parent_traversal_segment
Segment-of_has_parent path h = Segment-of_elem path [] (ground arith)
