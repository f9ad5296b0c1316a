-- ===== src/Registry/Lookup.antt =====
-- Which tool a requirement gets.
use mathlib.Core.List.{Memᴰ}
use mathlib.Core.List.Memᴰ
use storage_cert_harness.Common.{
  String, ◌≡◌, refl, sym, ap, subst, ◌∙◌, ◌≢◌, ◌↔◌, ◌⊎◌, inl, inr, Bool, true, false, ◌||◌, List,
  [], ◌∷◌, some, arith, ◌==◌, eq_iff, eq_refl, if◌then◌else◌, any, All, All-mem, All-of_mem,
  Bool-cases, lookup, IsMap, str_lt, str_lt_total, str_lt_trans, str_lt_irrefl, str_lt_asymm,
}
use storage_cert_harness.Registry.{Tool, best_name, best_of, for_tr_id}

-- The better of two names, where "" is none.
abbrev better : String → String → String
better best name = if best == "" || str_lt name best then name else best

not_lt_chain : (a b c : String) → str_lt a b ≡ false → str_lt b c ≡ false → str_lt a c ≡ false
not_lt_chain a b c h g = elim (Bool-cases (str_lt a c)) [
  | inr f ↦ f
  | inl t ↦ elim (Bool-cases (b == c)) [
    | inl same ↦ absurd (ground (arith, h, t, ap (str_lt a) ((eq_iff b c).0 same)))
    | inr apart ↦ absurd (ground (arith, h, str_lt_trans a c b t (str_lt_total b c apart g)))
  ]
]

-- A name is no later than another, where that is one.
abbrev NoLater : String → String → Type 0
NoLater r a = a ≢ "" → (r ≢ "") × (str_lt a r ≡ false)

NoLater-trans : (r b a : String) → NoLater r b → NoLater b a → NoLater r a
NoLater-trans r b a h g named =
    let (b_named, b_first) = g named in
    let (r_named, r_first) = h b_named in (r_named, not_lt_chain a b r b_first r_first)

NoLater-self : (a : String) → NoLater a a
NoLater-self a named = (named, str_lt_irrefl a)

better-NoLater :
    (best name : String)
    → name ≢ ""
    → NoLater (better best name) best × NoLater (better best name) name
better-NoLater best name named = elim (Bool-cases (best == "")) [
  | inl t ↦ rw t ((λ h. absurd (h ((eq_iff best "").0 t))), NoLater-self name)
  | inr f ↦ elim (Bool-cases (str_lt name best)) [
    | inl lt ↦
        rw (f, lt) ((λ h. (named, ground (arith, not_lt_back best name lt))), NoLater-self name)
    | inr ge ↦
        rw (f, ge) (NoLater-self best, λ h. ((λ e. ground (arith, f, eq_iff best "", e)), ge))
  ]
]
  where
    not_lt_back : (b n : String) → str_lt n b ≡ true → str_lt b n ≡ false
    not_lt_back b n lt = str_lt_asymm n b lt

abbrev offered : String → List String → Bool
offered id ps = any (λ p. p == id) ps

best_name-NoLater :
    (id name best : String) (ps : List String)
    → name ≢ ""
    → NoLater (best_name id name best ps) best
      × (offered id ps ≡ true → NoLater (best_name id name best ps) name)
unfolding best_name
best_name-NoLater id name best [] named = (NoLater-self best, λ h. absurd (ground (arith, h)))
best_name-NoLater id name best (p ∷ ps) named = elim (Bool-cases (p == id)) [
  | inl t ↦
      let (first, later) = best_name-NoLater id name (better best name) ps named in
      let (to_best, to_name) = better-NoLater best name named in
      rw t (NoLater-trans _ _ _ first to_best, λ h. NoLater-trans _ _ _ first to_name)
  | inr f ↦ rw f (best_name-NoLater id name best ps named)
]

best_name-cases :
    (id name best : String) (ps : List String)
    → (best_name id name best ps ≡ best)
      ⊎ ((best_name id name best ps ≡ name) × (offered id ps ≡ true))
unfolding best_name
best_name-cases id name best [] = inl refl
best_name-cases id name best (p ∷ ps) = elim (Bool-cases (p == id)) [
  | inl t ↦ elim (Bool-cases (best == "" || str_lt name best)) [
    | inl u ↦
        rw (t, u)
          (elim (best_name-cases id name name ps) [
            | inl e ↦ inr (e, refl)
            | inr (e, o) ↦ inr (e, refl)
          ])
    | inr u ↦
        rw (t, u)
          (elim (best_name-cases id name best ps) [ inl e ↦ inl e | inr (e, o) ↦ inr (e, refl) ])
  ]
  | inr f ↦ rw f (best_name-cases id name best ps)
]

module _ {T : Type 0} where
  abbrev pub offers : String → Tool T → Bool
  offers id t = any (λ p. p == id) t.provides

  best_of-NoLater :
      (id best : String) (tools : List (String × Tool T))
      → All (λ e. e.0 ≢ "") tools
      → NoLater (best_of id best tools) best
        × All (λ e. offers id e.1 ≡ true → NoLater (best_of id best tools) e.0) tools
  unfolding best_of
  best_of-NoLater id best [] named = (NoLater-self best, tt)
  best_of-NoLater id best ((name, t) ∷ tools) (n, named) =
      let best' = best_name id name best t.provides in
      let (first, later) = best_of-NoLater id best' tools named in
      let (to_best, to_name) = best_name-NoLater id name best t.provides n in
      (NoLater-trans _ _ _ first to_best, (λ h. NoLater-trans _ _ _ first (to_name h), later))

  best_of-cases :
      (id best : String) (tools : List (String × Tool T))
      → (best_of id best tools ≡ best)
        ⊎ ((t : Tool T) × Memᴰ (best_of id best tools, t) tools × (offers id t ≡ true))
  unfolding best_of
  best_of-cases id best [] = inl refl
  best_of-cases id best ((name, t) ∷ tools) =
      elim (best_of-cases id (best_name id name best t.provides) tools) [
        | inr (u, m, o) ↦ inr (u, Memᴰ.tail m, o)
        | inl e ↦ elim (best_name-cases id name best t.provides) [
          | inl same ↦ inl (e ∙ same)
          | inr (mine, o) ↦ inr (t, Memᴰ.head (ap (λ n. (n, t)) (e ∙ mine)), o)
        ]
      ]

  -- Every key is the name of its tool, and no name is empty.
  abbrev pub IsKeyed : List (String × Tool T) → Type 0
  IsKeyed = All (λ e. (e.0 ≢ "") × (e.0 ≡ e.1.name))

  mem-lookup :
      {k : String} {t : Tool T} {tools : List (String × Tool T)}
      → IsMap tools
      → Memᴰ (k, t) tools
      → lookup k tools ≡ some t
  mem-lookup {tools = []} im m = absurd (Memᴰ.not-nil m)
  mem-lookup {k} {t} {tools = (j, u) ∷ tools} (fresh, im) m = elim (Memᴰ.cases_cons m) [
    | inl e ↦ ground (arith, ap (λ p. p.0) e, ap (λ p. p.1) e, eq_refl k)
    | inr later ↦
        let found = mem-lookup {tools = tools} im later in
        elim (Bool-cases (j == k)) [
          | inl same ↦
              absurd (ground (arith, fresh, found, ap (λ n. lookup n tools) ((eq_iff j k).0 same)))
          | inr apart ↦ ground (arith, found, apart)
        ]
  ]

  lookup-mem :
      (k : String) (tools : List (String × Tool T)) {t : Tool T}
      → lookup k tools ≡ some t
      → Memᴰ (k, t) tools
  lookup-mem k [] h = absurd (ground (arith, h))
  lookup-mem k ((j, u) ∷ tools) {t} h = elim (Bool-cases (j == k)) [
    | inl same ↦
        let e : u ≡ t = ground (arith, h, same) in
        Memᴰ.head (λ i. (sym ((eq_iff j k).0 same) i, sym e i))
    | inr apart ↦ Memᴰ.tail (lookup-mem k tools (ground (arith, h, apart)))
  ]

  named_keys : (tools : List (String × Tool T)) → IsKeyed tools → All (λ e. e.0 ≢ "") tools
  named_keys [] h = tt
  named_keys (e ∷ tools) ((n, k), h) = (n, named_keys tools h)

  module _ (id : String) (tools : List (String × Tool T)) (im : IsMap tools)
      (keyed : IsKeyed tools) where
    abbrev best : String
    best = best_of id "" tools

    -- No tool that offers the id has a name before the best.
    spread :
        (e : String × Tool T)
        → Memᴰ e tools
        → offers id e.1 ≡ true
        → (best ≢ "") × (str_lt e.0 best ≡ false)
    spread e m h =
        All-mem (λ x. offers id x.1 ≡ true → NoLater best x.0) m
          (best_of-NoLater id "" tools (named_keys tools keyed)).1 h
          (All-mem (λ x. (x.0 ≢ "") × (x.0 ≡ x.1.name)) m keyed).0

    name_of : {k : String} {t : Tool T} → Memᴰ (k, t) tools → k ≡ t.name
    name_of m = (All-mem (λ x. (x.0 ≢ "") × (x.0 ≡ x.1.name)) m keyed).1

    found-least :
        (t : Tool T)
        → for_tr_id id tools ≡ some t
        → Memᴰ (t.name, t) tools
          × (offers id t ≡ true)
          × All (λ e. offers id e.1 ≡ true → str_lt e.0 t.name ≡ false) tools
    unfolding for_tr_id
    found-least t h =
        let (there, at_best) : (best ≢ "") × (lookup best tools ≡ some t) =
          (λ e. absurd (ground (arith, h, ap (λ b. b == "") e)), ground (arith, h)) in
        let m = lookup-mem best tools at_best in
        let same : best ≡ t.name = name_of m in
        elim (best_of-cases id "" tools) [
          | inl e ↦ absurd (there e)
          | inr (u, n, o) ↦
              let e : u ≡ t = ground (arith, mem-lookup im n, at_best) in
              (
                subst (λ k. Memᴰ (k, t) tools) same m,
                ap (offers id) (sym e) ∙ o,
                All-of_mem _ tools (λ x k offer. ap (str_lt x.0) (sym same) ∙ (spread x k offer).1),
              )
        ]

    least-found :
        (t : Tool T)
        → Memᴰ (t.name, t) tools
        → offers id t ≡ true
        → All (λ e. offers id e.1 ≡ true → str_lt e.0 t.name ≡ false) tools
        → for_tr_id id tools ≡ some t
    unfolding for_tr_id
    least-found t m o least =
        let (there, first) = spread (t.name, t) m o in
        let same : best ≡ t.name = elim (best_of-cases id "" tools) [
          | inl e ↦ absurd (there e)
          | inr (u, n, offer) ↦
              let back =
                All-mem (λ e. offers id e.1 ≡ true → str_lt e.0 t.name ≡ false) n least offer in
              elim (Bool-cases (t.name == best)) [
                | inl e ↦ sym ((eq_iff t.name best).0 e)
                | inr apart ↦ absurd (ground (arith, back, str_lt_total t.name best apart first))
              ]
        ] in
        let at_best : lookup best tools ≡ some t =
          ap (λ k. lookup k tools) same ∙ mem-lookup im m in
        ground (arith, at_best, there, eq_iff best "")

  -- The tool that is found for a requirement's id is the one that offers it with the least name, in
  -- whatever order the registry is read, where every tool stands once, under its name.
  pub for_tr_id_iff :
      (id : String) (tools : List (String × Tool T)) (t : Tool T)
      → IsMap tools
      → IsKeyed tools
      → (for_tr_id id tools ≡ some t) ↔ (
          Memᴰ (t.name, t) tools
          × (offers id t ≡ true)
          × All (λ e. offers id e.1 ≡ true → str_lt e.0 t.name ≡ false) tools)
  for_tr_id_iff id tools t im keyed =
      (found-least id tools im keyed t, λ (m, o, least). least-found id tools im keyed t m o least)
