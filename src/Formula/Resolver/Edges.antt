-- ===== src/Formula/Resolver/Edges.antt =====
-- The graph that `resolve_order` builds.
use backend_business_intelli.Prelude.{
  ◌+◌, ◌≡◌, refl, ap, ◌∙◌, Bool, true, false, ◌&&◌, ◌||◌, List, [], ◌∷◌, arith, length, Bool-cases,
  inl, inr, if◌then◌else◌,
}
use backend_business_intelli.Formula.Base.{Text, text_eq, Result, ok, err, ◌>>=◌, missing_formula}
use backend_business_intelli.Formula.Validator.{FormulaDefinition, member}
use backend_business_intelli.Formula.Identifiers.{text_eq_refl, text_eq→≡}
use backend_business_intelli.Formula.Executor.{Dict}
use backend_business_intelli.Formula.Resolver.{
  Links, add_edge, add_edges, add_all_edges, extract_dependencies, keys,
}
use backend_business_intelli.Formula.Resolver.Kahn.{IsOrder}
use backend_business_intelli.Formula.Resolver.Sets.{
  Distinct, Distinct-snoc, member-snoc, member_same, along,
}

module _ (id : Text) where
  -- What the edges from some dependencies to the formula add to the links.
  record Added (ds : List Text) (l l' : Links) : Type 0 where
    inbound :
        (v : Text) → l'.inbound v ≡ (if text_eq v id then l.inbound v + length ds else l.inbound v)
    members :
        (u v : Text)
        → member v (l'.graph u) ≡ (member v (l.graph u) || (text_eq v id && member u ds))
    distinct : (u : Text) → Distinct (l'.graph u)

  edge-Added :
      (d : Text) (l : Links)
      → member id (l.graph d) ≡ false
      → ((u : Text) → Distinct (l.graph u))
      → Added (d ∷ []) l (add_edge id d l)
  unfolding add_edge
  edge-Added d l fresh ds = rw fresh (record {
    inbound = λ v. elim (Bool-cases (text_eq v id)) [
      | inl e ↦ let value = ap l.inbound (text_eq→≡ v id e) in rw e (omega (arith, value))
      | inr e ↦ rw e refl
    ];
    members = λ u v. elim (Bool-cases (text_eq u d)) [
      | inl e ↦
          let value = ap (λ w. member v (l.graph w)) (text_eq→≡ u d e) in
          rw e (member-snoc v id (l.graph d) ∙ ground (arith, value))
      | inr e ↦ rw e (ground arith)
    ];
    distinct = λ u. elim (Bool-cases (text_eq u d)) [
      | inl e ↦ rw e (Distinct-snoc (l.graph d) id (ds d) fresh)
      | inr e ↦ rw e (ds u)
    ];
  })

  -- The loop over the dependencies: it adds them all, or raises on a missing one.
  abbrev EdgesOf : List Text → List Text → Links → Result Links → Type 0
  EdgesOf ids ds l (ok l') = Added ds l l' × ((u : Text) → member u ds ≡ true → member u ids ≡ true)
  EdgesOf ids ds l (err e) =
      (d : Text) × (e ≡ missing_formula d) × (member d ds ≡ true) × (member d ids ≡ false)

  edges-cons :
      (ids ds : List Text) (d : Text) (l mid : Links) (r : Result Links)
      → Added (d ∷ []) l mid
      → member d ids ≡ true
      → EdgesOf ids ds mid r
      → EdgesOf ids (d ∷ ds) l r
  edges-cons ids ds d l mid (ok l') a m (b, all) = (
    record {
      inbound = λ v. ground (arith, a.inbound v, b.inbound v);
      members = λ u v. ground (arith, a.members u v, b.members u v);
      distinct = b.distinct;
    },
    λ u h. ground (arith, all u, member_same u d ids),
  )
  edges-cons ids ds d l mid (err e) a m (x, same, here, gone) = (x, same, ground arith, gone)

  add_edges-EdgesOf :
      (ids ds : List Text) (l : Links)
      → Distinct ds
      → ((u : Text) → member u ds ≡ true → member id (l.graph u) ≡ false)
      → ((u : Text) → Distinct (l.graph u))
      → EdgesOf ids ds l (add_edges ids id ds l)
  unfolding add_edges
  add_edges-EdgesOf ids [] l d fresh ds = (
    record { inbound = λ v. ground arith; members = λ u v. ground arith; distinct = ds },
    λ u h. cc,
  )
  add_edges-EdgesOf ids (x ∷ xs) l (new, d) fresh ds =
      let a = edge-Added x l (fresh x (ground (arith, text_eq_refl x))) ds in
      elim (Bool-cases (member x ids)) [
        | inl e ↦ rw e (
            edges-cons ids xs x l (add_edge id x l) (add_edges ids id xs (add_edge id x l)) a e (
              add_edges-EdgesOf ids xs (add_edge id x l) d
                (λ u m. ground (arith, a.members u id, fresh u, member_same u x xs)) a.distinct))
        | inr e ↦ rw e (x, refl, ground (arith, text_eq_refl x), e)
      ]

module _ (iterate : List Text → List Text) (order_of : IsOrder iterate) (deps : Text → List Text)
    (ids : List Text) where
  -- Each formula's dependencies are those of its definition.
  abbrev pub Describes : Dict FormulaDefinition → Type 0
  Describes [] = Unit
  Describes ((id, definition) ∷ formulas) =
      (iterate (extract_dependencies definition) ≡ deps id) × Describes formulas

  -- The links of the formulas so far.
  pub record Linked (done : Text → Bool) (l : Links) : Type 0 where
    pub inbound : (v : Text) → done v ≡ true → l.inbound v ≡ length (deps v)
    pub untouched : (v : Text) → done v ≡ false → l.inbound v ≡ 0
    pub members : (u v : Text) → member v (l.graph u) ≡ (done v && member u (deps v))
    pub distinct : (u : Text) → Distinct (l.graph u)
    pub known : (u v : Text) → done v ≡ true → member u (deps v) ≡ true → member u ids ≡ true

  abbrev pub LinkedAll : (Text → Bool) → Dict FormulaDefinition → Result Links → Type 0
  LinkedAll done formulas (ok l) = Linked (λ v. done v || member v (keys formulas)) l
  LinkedAll done formulas (err e) =
      (id : Text) × (d : Text) × (e ≡ missing_formula d)
      × (member id (keys formulas) ≡ true)
      × (member d (deps id) ≡ true)
      × (member d ids ≡ false)

  next-Linked :
      (done : Text → Bool) (id : Text) (l l' : Links)
      → Linked done l
      → done id ≡ false
      → Added id (deps id) l l'
      → ((u : Text) → member u (deps id) ≡ true → member u ids ≡ true)
      → Linked (λ v. done v || text_eq v id) l'
  next-Linked done id l l' h new a all = record {
    inbound = λ v m. ground (
      arith,
      a.inbound v,
      h.inbound v,
      h.untouched v,
      along (λ (w : Text). length (deps w)) v id,
      along done v id,
    );
    untouched = λ v m. ground (arith, a.inbound v, h.untouched v);
    members = λ u v. ground (
      arith,
      a.members u v,
      h.members u v,
      along (λ (w : Text). member u (deps w)) v id,
      along done v id,
    );
    distinct = a.distinct;
    known =
        λ u v m n. ground (arith, h.known u v, all u, along (λ (w : Text). member u (deps w)) v id);
  }

  rest-LinkedAll :
      (done done' : Text → Bool) (id : Text) (definition : FormulaDefinition)
      (formulas : Dict FormulaDefinition) (r : Result Links)
      → ((v : Text) → done' v ≡ (done v || text_eq v id))
      → LinkedAll done' formulas r
      → LinkedAll done ((id, definition) ∷ formulas) r
  rest-LinkedAll done done' id definition formulas (ok l) same h = record {
    inbound = λ v m. h.inbound v (ground (arith, same v));
    untouched = λ v m. h.untouched v (ground (arith, same v));
    members = λ u v. ground (arith, h.members u v, same v);
    distinct = h.distinct;
    known = λ u v m n. h.known u v (ground (arith, same v)) n;
  }
  rest-LinkedAll done done' id definition formulas (err e) same (v, d, named, m, n, gone) =
      (v, d, named, ground arith, n, gone)

  edges-LinkedAll :
      (done : Text → Bool) (id : Text) (definition : FormulaDefinition)
      (formulas : Dict FormulaDefinition) (l : Links) (r : Result Links)
      → Linked done l
      → done id ≡ false
      → EdgesOf id ids (deps id) l r
      → ((l' : Links)
          → Linked (λ v. done v || text_eq v id) l'
          → LinkedAll
              (λ v. done v || text_eq v id)
              formulas
              (add_all_edges iterate ids formulas l'))
      → LinkedAll done
          ((id, definition) ∷ formulas)
          (r >>= λ more. add_all_edges iterate ids formulas more)
  edges-LinkedAll done id definition formulas l (ok l') h new (a, all) rest =
      rest-LinkedAll done (λ v. done v || text_eq v id) id definition formulas
        (add_all_edges iterate ids formulas l') (λ v. refl)
        (rest l' (next-Linked done id l l' h new a all))
  edges-LinkedAll done id definition formulas l (err e) h new (d, named, m, gone) rest =
      (id, d, named, ground (arith, text_eq_refl id), m, gone)

  -- The graph of all formulas, or a dependency that is missing.
  pub add_all_edges-LinkedAll :
      (done : Text → Bool) (formulas : Dict FormulaDefinition) (l : Links)
      → Describes formulas
      → ((v : Text) → Distinct (deps v))
      → Distinct (keys formulas)
      → ((v : Text) → member v (keys formulas) ≡ true → done v ≡ false)
      → Linked done l
      → LinkedAll done formulas (add_all_edges iterate ids formulas l)
  unfolding add_all_edges
  add_all_edges-LinkedAll done [] l described distinct unique new h = record {
    inbound = λ v m. h.inbound v (ground arith);
    untouched = λ v m. h.untouched v (ground arith);
    members = λ u v. ground (arith, h.members u v);
    distinct = h.distinct;
    known = λ u v m n. h.known u v (ground arith) n;
  }
  add_all_edges-LinkedAll done ((id, definition) ∷ formulas) l (same, described) distinct
        (fresh, unique) new h =
      let first : done id ≡ false = new id (ground (arith, text_eq_refl id)) in
      rw same (
        edges-LinkedAll done id definition formulas l (add_edges ids id (deps id) l) h first
          (add_edges-EdgesOf id ids (deps id) l (distinct id)
            (λ u m. ground (arith, h.members u id, first)) h.distinct)
          (λ l' h'.
            add_all_edges-LinkedAll (λ v. done v || text_eq v id) formulas l' described distinct
              unique (λ v m. ground (arith, new v, member_same v id (keys formulas))) h'))
