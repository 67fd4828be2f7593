-- ===== src/Formula/Resolver/Kahn.antt =====
-- The loop over the queue: every formula is taken after those that it depends on.
use mathlib.Core.List.{append_assoc, append-nil}
use backend_business_intelli.Prelude.{
  ℕ, zero, suc, ◌+◌, ◌-◌, ◌≤◌, ◌≡◌, ◌≢◌, refl, ap, ◌∙◌, true, false, ◌&&◌, ◌||◌, List, [], ◌∷◌,
  ◌++◌, arith, length, length-append, Bool-cases, inl, inr, if◌then◌else◌, ◌==◌,
}
use backend_business_intelli.Formula.Base.{Text, text_eq, ok}
use backend_business_intelli.Formula.Validator.{member}
use backend_business_intelli.Formula.Identifiers.{text_eq_refl, text_eq→≡}
use backend_business_intelli.Formula.Resolver.{release, take_nodes, without_inbound}
use backend_business_intelli.Formula.Resolver.Sets.{
  Distinct, Distinct-snoc, member-snoc, member_same, waiting, waiting-zero, waiting-none,
  waiting-snoc, along, release-inbound, release-queue, release-Distinct,
}

-- Python's order of going through a set: the same members, each once.
pub record IsOrder (iterate : List Text → List Text) : Type 0 where
  pub same : (ts : List Text) (t : Text) → member t (iterate ts) ≡ member t ts
  pub distinct : (ts : List Text) → Distinct ts → Distinct (iterate ts)

module _ (deps : Text → List Text) where
  -- Everything that a formula depends on stands before it.
  abbrev pub DependenciesFirst : List Text → List Text → Type 0
  DependenciesFirst done [] = Unit
  DependenciesFirst done (v ∷ vs) =
      ((u : Text) → member u (deps v) ≡ true → member u done ≡ true)
      × DependenciesFirst (done ++ v ∷ []) vs

  first-snoc :
      (done vs : List Text) (v : Text)
      → DependenciesFirst done vs
      → ((u : Text) → member u (deps v) ≡ true → member u (done ++ vs) ≡ true)
      → DependenciesFirst done (vs ++ v ∷ [])
  first-snoc done [] v f h = ((λ u m. let e = h u m in rw append-nil at e), tt)
  first-snoc done (w ∷ vs) v (f, fs) h =
      (f, first-snoc (done ++ w ∷ []) vs v fs (λ u m. rw append_assoc (h u m)))

member-without :
    (inbound : Text → ℕ) (ids : List Text) (v : Text)
    → member v (without_inbound inbound ids) ≡ (member v ids && (inbound v == 0))
member-without inbound [] v = ground arith
member-without inbound (i ∷ ids) v = ground (arith, member-without inbound ids v, along inbound v i)

without-Distinct :
    (inbound : Text → ℕ) (ids : List Text) → Distinct ids → Distinct (without_inbound inbound ids)
without-Distinct inbound [] d = tt
without-Distinct inbound (i ∷ ids) (new, d) = elim (Bool-cases (inbound i == 0)) [
  | inl e ↦ rw e (ground (arith, member-without inbound ids i), without-Distinct inbound ids d)
  | inr e ↦ rw e (without-Distinct inbound ids d)
]

module _ (ids : List Text) (deps : Text → List Text) where
  -- What an order says when the loop has ended.
  pub record Ended (order : List Text) : Type 0 where
    pub order_distinct : Distinct order
    pub within : (v : Text) → member v order ≡ true → member v ids ≡ true
    pub total : length order + waiting order ids ≡ length ids
    pub first : DependenciesFirst deps [] order
    pub stuck :
        (v : Text) → member v ids ≡ true → member v order ≡ false → waiting order (deps v) ≢ 0

module _ (iterate : List Text → List Text) (order_of : IsOrder iterate) (ids : List Text)
    (ids_distinct : Distinct ids) (deps : Text → List Text)
    (deps_distinct : (v : Text) → Distinct (deps v)) (graph : Text → List Text)
    (graph_distinct : (u : Text) → Distinct (graph u))
    (graph_member : (u v : Text) → member v (graph u) ≡ (member v ids && member u (deps v))) where
  -- The state of the loop: the counters, the queue and the nodes taken.
  record Holds (inbound : Text → ℕ) (queue order : List Text) : Type 0 where
    counts : (v : Text) → member v ids ≡ true → inbound v ≡ waiting order (deps v)
    ready :
        (v : Text)
        → member v queue ≡ true
        → (member v ids ≡ true) × (waiting order (deps v) ≡ 0) × (member v order ≡ false)
    queue_distinct : Distinct queue
    complete :
        (v : Text)
        → member v ids ≡ true
        → waiting order (deps v) ≡ 0
        → (member v queue || member v order) ≡ true
    taken :
        (v : Text) → member v order ≡ true → (member v ids ≡ true) × (waiting order (deps v) ≡ 0)
    order_distinct : Distinct order
    total : length order + waiting order ids ≡ length ids
    first : DependenciesFirst deps [] order

  module _ (inbound : Text → ℕ) (u : Text) (queue order : List Text)
      (h : Holds inbound (u ∷ queue) order) where
    abbrev neighbors : List Text
    neighbors = iterate (graph u)

    neighbors-Distinct : Distinct neighbors
    neighbors-Distinct = order_of.distinct (graph u) (graph_distinct u)

    of_neighbors : (v : Text) → member v neighbors ≡ (member v ids && member u (deps v))
    of_neighbors v = order_of.same (graph u) v ∙ graph_member u v

    abbrev order' : List Text
    order' = order ++ u ∷ []

    u_ready : (member u ids ≡ true) × (waiting order (deps u) ≡ 0) × (member u order ≡ false)
    u_ready = h.ready u (ground (arith, text_eq_refl u))

    step :
        (v : Text)
        → waiting order (deps v) ≡ waiting order' (deps v) + (if member u (deps v) then 1 else 0)
    step v = waiting-snoc order (deps v) u (deps_distinct v) u_ready.2

    counted :
        (v : Text)
        → (release neighbors inbound queue).0 v
          ≡ (if member v neighbors then inbound v - 1 else inbound v)
    counted v = release-inbound neighbors inbound queue v neighbors-Distinct

    queued :
        (v : Text)
        → member v (release neighbors inbound queue).1
          ≡ (member v queue || (member v neighbors && (inbound v - 1 == 0)))
    queued v = release-queue neighbors inbound queue v neighbors-Distinct

    same_waiting : (v : Text) → text_eq v u ≡ true → waiting order (deps v) ≡ waiting order (deps u)
    same_waiting v e = ap (λ w. waiting order (deps w)) (text_eq→≡ v u e)

    -- A neighbour is neither in the queue nor taken: it waits for the node.
    new_neighbor :
        (v : Text)
        → member v neighbors ≡ true
        → (member v queue ≡ false) × (member v order' ≡ false)
    new_neighbor v m = ground (
      arith,
      of_neighbors v,
      step v,
      h.ready v,
      h.taken v,
      member-snoc v u order,
      same_waiting v,
      u_ready,
    )

    Holds-step :
        Holds (release neighbors inbound queue).0 (release neighbors inbound queue).1 order'
    Holds-step = record {
      counts = λ v m. ground (arith, counted v, of_neighbors v, step v, h.counts v);
      ready = λ v m. ground (
        arith,
        queued v,
        of_neighbors v,
        step v,
        h.counts v,
        h.ready v,
        new_neighbor v,
        member-snoc v u order,
        member_same v u queue,
        h.queue_distinct,
      );
      queue_distinct =
          release-Distinct neighbors inbound queue neighbors-Distinct h.queue_distinct.1
            (λ v m z. (new_neighbor v m).0);
      complete = λ v m z. ground (
        arith,
        queued v,
        of_neighbors v,
        step v,
        h.counts v,
        h.complete v,
        member-snoc v u order,
      );
      taken = λ v m. ground (
        arith,
        member-snoc v u order,
        step v,
        h.taken v,
        same_waiting v,
        u_ready,
        member_same v u ids,
      );
      order_distinct = Distinct-snoc order u h.order_distinct u_ready.2;
      total = omega (arith, h.total, one_less, length-append order (u ∷ []));
      first = first-snoc deps [] order u h.first (λ w m. waiting-zero order (deps u) w u_ready.1 m);
    }
      where
        one_less : waiting order ids ≡ waiting order' ids + 1
        one_less = ground (arith, waiting-snoc order ids u ids_distinct u_ready.2, u_ready)

  -- The loop ends with an empty queue, within fuel for the nodes that are left.
  take-Holds :
      (fuel : ℕ) (inbound : Text → ℕ) (queue order : List Text)
      → Holds inbound queue order
      → waiting order ids ≤ fuel
      → (last : List Text) × (take_nodes iterate fuel graph inbound queue order ≡ ok last)
        × ((left : Text → ℕ) × Holds left [] last)
  unfolding take_nodes
  take-Holds fuel inbound [] order h enough = (order, refl, (inbound, h))
  take-Holds zero inbound (u ∷ queue) order h enough =
      let (here, _, new) = h.ready u (ground (arith, text_eq_refl u)) in
      let taken = waiting-zero order ids u (omega arith) here in absurd (ground arith)
  take-Holds (suc fuel) inbound (u ∷ queue) order h enough =
      let (here, _, new) = h.ready u (ground (arith, text_eq_refl u)) in
      let one_less = waiting-snoc order ids u ids_distinct new in
      take-Holds fuel _ _ (order ++ u ∷ []) (Holds-step inbound u queue order h) (ground arith)

  start-Holds :
      (inbound : Text → ℕ)
      → ((v : Text) → member v ids ≡ true → inbound v ≡ length (deps v))
      → Holds inbound (without_inbound inbound ids) []
  start-Holds inbound h = record {
    counts = λ v m. omega (arith, h v m, waiting-none (deps v));
    ready = λ v m. ground (arith, member-without inbound ids v, h v, waiting-none (deps v));
    queue_distinct = without-Distinct inbound ids ids_distinct;
    complete = λ v m z. ground (arith, member-without inbound ids v, h v, waiting-none (deps v));
    taken = λ v m. cc;
    order_distinct = tt;
    total = omega (arith, waiting-none ids);
    first = tt;
  }

  pub take_nodes-Ended :
      (inbound : Text → ℕ)
      → ((v : Text) → member v ids ≡ true → inbound v ≡ length (deps v))
      → (order : List Text) × (take_nodes iterate
            (length ids)
            graph
            inbound
            (without_inbound inbound ids)
            []
          ≡ ok order)
        × Ended ids deps order
  take_nodes-Ended inbound h =
      let (order, run, (left, e)) =
        take-Holds (length ids) inbound (without_inbound inbound ids) [] (start-Holds inbound h)
          (omega (arith, waiting-none ids)) in
      (
        order,
        run,
        record {
          order_distinct = e.order_distinct;
          within = λ v m. (e.taken v m).0;
          total = e.total;
          first = e.first;
          stuck = λ v m n z. ground (arith, e.complete v);
        },
      )
