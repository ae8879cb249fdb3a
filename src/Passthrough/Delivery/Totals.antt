-- ===== src/Passthrough/Delivery/Totals.antt =====
-- The bytes that an observer is told of, in whatever order its observations come.
use mathlib.Core.List.{Permᴰ}
use mathlib.Core.Logic.{∥∥₁_elim}
use native.Mathlib.Nat.{ℕ_set}
use caddy_bifrost.Base.{◌≡◌, refl, ap, ◌∙◌, true, false, List, arith, All, pos_part}
use caddy_bifrost.Passthrough.{Observation, Lifecycle}
use caddy_bifrost.Passthrough.Bytes.{
  IsOpen, added_ingress, added_egress, total_ingress, total_egress, run-totals,
}
use caddy_bifrost.Passthrough.Delivery.{Flight, begin, Reach, Quiet, delivered_once}

totals_kept :
    {xs ys : List Observation}
    → Permᴰ xs ys
    → (total_ingress xs ≡ total_ingress ys) × (total_egress xs ≡ total_egress ys)
totals_kept Permᴰ.nil = (refl, refl)
totals_kept (Permᴰ.cons e h) = let (i, o) = totals_kept h in (cc, cc)
totals_kept (Permᴰ.swap e e') = (
  omega (
    arith,
    ap (λ (o : Observation). pos_part o.bytes_ingress_to_endpoint) e,
    ap (λ (o : Observation). pos_part o.bytes_ingress_to_endpoint) e',
  ),
  omega (
    arith,
    ap (λ (o : Observation). pos_part o.bytes_endpoint_to_ingress) e,
    ap (λ (o : Observation). pos_part o.bytes_endpoint_to_ingress) e',
  ),
)
totals_kept (Permᴰ.trans h k) =
    let (i, o) = totals_kept h in let (i', o') = totals_kept k in (i ∙ i', o ∙ o')

-- Before any call ends a stream, and once all calls have handed on what they had, the deltas that
-- its observer has received add up to the bytes that were counted, in each direction.
pub delivered-totals :
    (l : Lifecycle) (s : Flight)
    → Reach (begin l) s
    → Quiet s
    → All IsOpen s.calls
    → l.observed ≡ true
    → l.ended ≡ false
    → (total_ingress s.delivered ≡ added_ingress s.calls)
      × (total_egress s.delivered ≡ added_egress s.calls)
delivered-totals l s r quiet open_calls observed open_stream =
    let (i, o) = run-totals s.calls l open_calls observed open_stream in
    let p = (delivered_once l s r quiet).0 in
    (
      ∥∥₁_elim p (ℕ_set _ _) (λ h. (totals_kept h).0) ∙ i,
      ∥∥₁_elim p (ℕ_set _ _) (λ h. (totals_kept h).1) ∙ o,
    )
