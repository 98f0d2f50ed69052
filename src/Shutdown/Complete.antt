-- ===== src/Shutdown/Complete.antt =====
-- The stop order is found for every graph, and no service is missing from it.
use dynamod.Common.{
  ℕ, zero, suc, ◌+◌, ◌≤◌, String, ◌≡◌, refl, ap, true, List, [], ◌∷◌, ◌++◌, some, arith, subst,
  Bool-cases, inl, inr, string_key, if◌then◌else◌, not, ◌||◌, ◌&&◌,
}
use mathlib.Core.Option
use dynamod.Common.Set
use dynamod.Common.Set.{contains-insert, contains-push}
use dynamod.Common.Lists.{length, length-append}
use dynamod.Dependency.Graph.{DependencyGraph, dependents_of}
use dynamod.Dependency.Frontier.{block_work}
use dynamod.Dependency.Frontier.Blocking.{block_work-insert}
use dynamod.Shutdown.{
  Kahn, count_down, count_down_all, visit, drain, append_unreached, reverse_onto, start, drain_fuel,
  compute_reverse_topo_order,
}

-- The loop over dependents queues at most all of them, and touches neither order nor marks.
count_down_all-keeps :
    (ds : List String) (k : Kahn)
    → (length (count_down_all ds k).queue ≤ length k.queue + length ds)
      × ((count_down_all ds k).visited ≡ k.visited)
      × ((count_down_all ds k).forward_order ≡ k.forward_order)
unfolding count_down_all count_down
count_down_all-keeps [] k = (omega arith, refl, refl)
count_down_all-keeps (d ∷ ds) k =
    ground (arith, count_down_all-keeps ds (count_down d k), length-append k.queue (d ∷ []))

drain-returns :
    (fuel : ℕ) (g : DependencyGraph) (queue : List String) (k : Kahn)
    → length queue + block_work k.visited g.reverse_deps ≤ fuel
    → (r : Kahn) × (drain fuel g queue k ≡ some r)
unfolding drain dependents_of
drain-returns zero g [] k h = (k, refl)
drain-returns (suc fuel) g [] k h = (k, refl)
drain-returns zero g (svc ∷ queue) k h = absurd (omega arith)
drain-returns (suc fuel) g (svc ∷ queue) k h = elim (Bool-cases (Set.contains svc k.visited)) [
  | inl old ↦ let (r, e) = drain-returns fuel g queue k (omega arith) in (r, ground arith)
  | inr new ↦
      let ds = dependents_of g svc in
      let next = count_down_all ds (visit svc queue k) in
      let (short, marks, _) = count_down_all-keeps ds (visit svc queue k) in
      let fits : length next.queue + block_work next.visited g.reverse_deps ≤ fuel =
        ground (arith, short, marks, block_work-insert svc k.visited g.reverse_deps new, h) in
      let (r, e) = drain-returns fuel g next.queue next fits in (r, ground (arith, e))
]

-- What is marked is in the order.
abbrev Covers : Kahn → Type 0
Covers k = (s : String) → Set.contains s k.visited ≡ true → Set.contains s k.forward_order ≡ true

drain-Covers :
    (fuel : ℕ) (g : DependencyGraph) (queue : List String) (k r : Kahn)
    → drain fuel g queue k ≡ some r
    → Covers k
    → Covers r
unfolding drain
drain-Covers zero g [] k r e c = let same : k ≡ r = ground arith in subst Covers same c
drain-Covers (suc fuel) g [] k r e c = let same : k ≡ r = ground arith in subst Covers same c
drain-Covers zero g (svc ∷ queue) k r e c = absurd (cc)
drain-Covers (suc fuel) g (svc ∷ queue) k r e c = elim (Bool-cases (Set.contains svc k.visited)) [
  | inl old ↦ drain-Covers fuel g queue k r (ground arith) c
  | inr new ↦
      let ds = dependents_of g svc in
      let next = count_down_all ds (visit svc queue k) in
      let (_, marks, order) = count_down_all-keeps ds (visit svc queue k) in
      drain-Covers fuel g next.queue next r (ground (arith, e, new)) (λ s h. ground (
        arith,
        marks,
        order,
        h,
        c s,
        contains-insert svc s k.visited,
        contains-push svc s k.forward_order,
      ))
]

contains-append_unreached :
    (services visited order : List String) (s : String)
    → Set.contains s (append_unreached services visited order)
      ≡ (Set.contains s order || (Set.contains s services && not (Set.contains s visited)))
unfolding append_unreached Set.contains
contains-append_unreached [] visited order s = ground arith
contains-append_unreached (svc ∷ services) visited order s = ground (
  arith,
  contains-append_unreached services visited
      (if not (Set.contains svc visited) then order ++ svc ∷ [] else order) s,
  contains-push svc s order,
)

contains-reverse_onto :
    (order done : List String) (s : String)
    → Set.contains s (reverse_onto order done) ≡ (Set.contains s order || Set.contains s done)
unfolding reverse_onto Set.contains
contains-reverse_onto [] done s = refl
contains-reverse_onto (svc ∷ order) done s =
    ground (arith, contains-reverse_onto order (svc ∷ done) s)

start-Covers : (g : DependencyGraph) → Covers (start g)
unfolding start Set.contains
start-Covers g s h = ground arith

pub compute_reverse_topo_order-covers :
    (g : DependencyGraph)
    → (order : List String) × (compute_reverse_topo_order g ≡ some order)
      × ((s : String) → Set.contains s g.services ≡ true → Set.contains s order ≡ true)
unfolding compute_reverse_topo_order start
compute_reverse_topo_order-covers g =
    let (k, e) = drain-returns (drain_fuel g) g (start g).queue (start g) (omega arith) in
    let covers = drain-Covers (drain_fuel g) g (start g).queue (start g) k e (start-Covers g) in
    let order = append_unreached g.services k.visited k.forward_order in
    (
      reverse_onto order [],
      ap
          (Option.map
            (λ (k : Kahn). reverse_onto (append_unreached g.services k.visited k.forward_order) []))
          e,
      λ s known. ground (
        arith,
        known,
        contains-reverse_onto order [] s,
        covers s,
        contains-append_unreached g.services k.visited k.forward_order s,
      ),
    )

-- For every graph, cyclic or not, the stop order is found within the fuel, and every service is in
-- it, so that shutdown passes none over.
pub compute_reverse_topo_order_complete :
    (g : DependencyGraph) (s : String)
    → Set.contains s g.services ≡ true
    → (order : List String) × (compute_reverse_topo_order g ≡ some order)
      × (Set.contains s order ≡ true)
compute_reverse_topo_order_complete g s known =
    let (order, e, covers) = compute_reverse_topo_order-covers g in (order, e, covers s known)
