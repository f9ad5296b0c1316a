-- ===== src/Knowledge/Records.antt =====
-- The loop that internal/catalog/catalog.go and internal/thresholds/thresholds.go have in common: each
-- record has an id that no earlier one has, and passes a check of its own.
use storage_cert_harness.Common.{
  ℕ, suc, String, ◌≡◌, refl, ◌≢◌, ◌↔◌, Bool, false, not, List, [], ◌∷◌, Option, none, some, arith,
  ◌==◌, eq_iff, if◌then◌else◌, any, All, Pairs,
}

-- What `Validate` refuses, with the arguments of its message.
pub data Invalid : Type 0 where
  missing_schema_version : Invalid
  unsupported_schema_version : String → Invalid
  missing_id : ℕ → Invalid
  duplicate_id : String → Invalid
  numeric_bar : String → ℕ → String → Invalid
  missing_metric : String → ℕ → Invalid
  unknown_operator : String → ℕ → String → String → Invalid

-- `SupportedSchemaVersion`
abbrev pub supported : String
supported = "2.0"

-- The id is among those seen.
abbrev pub seen_in : String → List String → Bool
seen_in id seen = any (λ s. s == id) seen

pub All-iff :
    {A : Type 0} {P Q : A → Type 0} (xs : List A) → ((a : A) → P a ↔ Q a) → All P xs ↔ All Q xs
All-iff [] h = (λ u. tt, λ u. tt)
All-iff (x ∷ xs) h =
    (λ (p, ps). ((h x).0 p, (All-iff xs h).0 ps), λ (q, qs). ((h x).1 q, (All-iff xs h).1 qs))

module _ {A : Type 0} (id_of : A → String) where
  abbrev pub Fresh : List String → List A → Type 0
  Fresh seen = All (λ x. seen_in (id_of x) seen ≡ false)

  abbrev pub Distinct : List A → Type 0
  Distinct = Pairs (λ x y. id_of x ≢ id_of y)

  pub Fresh-cons :
      (id : String) (seen : List String) (xs : List A)
      → Fresh (id ∷ seen) xs ↔ (All (λ y. id ≢ id_of y) xs × Fresh seen xs)
  Fresh-cons id seen [] = (λ h. (tt, tt), λ h. tt)
  Fresh-cons id seen (x ∷ xs) =
      let later = Fresh-cons id seen xs in
      (
        λ h.
            let (a, b) = later.0 h.1 in
            (
              (λ e. absurd (ground (arith, h.0, eq_iff id (id_of x), e)), a),
              (ground (arith, h.0), b),
            ),
        λ ((apart, a), (f, b)). (ground (arith, f, apart, eq_iff id (id_of x)), later.1 (a, b)),
      )

  pub all-Fresh : (xs : List A) → Fresh [] xs
  all-Fresh [] = tt
  all-Fresh (x ∷ xs) = (refl, all-Fresh xs)

module _ {A : Type 0} (id_of : A → String) (check : A → Option Invalid) where
  unfoldable pub validate_records : ℕ → List String → List A → Option Invalid
  validate_records i seen [] = none
  validate_records i seen (x ∷ xs) =
      let rest = validate_records (suc i) (id_of x ∷ seen) xs in
      if id_of x == ""
      then some (missing_id i)
      else if seen_in (id_of x) seen
      then some (duplicate_id (id_of x))
      else elim (check x) [ some e ↦ some e | none ↦ rest ]

  -- The version is supported and every record passes.
  unfoldable pub validate_doc : String → List A → Option Invalid
  unfolding validate_records
  validate_doc version xs =
      if version == ""
      then some missing_schema_version
      else if not (version == supported)
      then some (unsupported_schema_version version)
      else validate_records 0 [] xs

  -- Every record has an id and passes its check.
  abbrev pub Sound : List A → Type 0
  Sound = All (λ x. (id_of x ≢ "") × (check x ≡ none))

  validate_records_iff :
      (i : ℕ) (seen : List String) (xs : List A)
      → (validate_records i seen xs ≡ none) ↔ (Sound xs × Fresh id_of seen xs × Distinct id_of xs)
  unfolding validate_records
  validate_records_iff i seen [] = (λ h. (tt, tt, tt), λ h. refl)
  validate_records_iff i seen (x ∷ xs) =
      let rest = validate_records_iff (suc i) (id_of x ∷ seen) xs in
      let split = Fresh-cons id_of (id_of x) seen xs in
      let step : (validate_records i seen (x ∷ xs) ≡ none) ↔ (
          (id_of x ≢ "")
          × (seen_in (id_of x) seen ≡ false)
          × (check x ≡ none)
          × (validate_records (suc i) (id_of x ∷ seen) xs ≡ none)) =
        ground (arith, eq_iff (id_of x) "") in
      (
        λ h.
            let (named, new, passes, later) = step.0 h in
            let (sound, fresh, distinct) = rest.0 later in
            let (apart, old) = split.0 fresh in
            (((named, passes), sound), (new, old), (apart, distinct)),
        λ (((named, passes), sound), (new, old), (apart, distinct)).
            step.1 (named, new, passes, rest.1 (sound, split.1 (apart, old), distinct)),
      )

  pub validate_doc_iff :
      (version : String) (xs : List A)
      → (validate_doc version xs ≡ none) ↔ ((version ≡ supported) × Sound xs × Distinct id_of xs)
  unfolding validate_doc
  validate_doc_iff version xs =
      let rest = validate_records_iff 0 [] xs in
      let step : (validate_doc version xs ≡ none)
          ↔ ((version ≡ supported) × (validate_records 0 [] xs ≡ none)) =
        (
          λ h. ground (arith, h, eq_iff version "", eq_iff version supported),
          λ (v, later). rw v later,
        ) in
      (
        λ h.
            let (v, later) = step.0 h in
            let (sound, fresh, distinct) = rest.0 later in (v, sound, distinct),
        λ (v, sound, distinct). step.1 (v, rest.1 (sound, all-Fresh id_of xs, distinct)),
      )
