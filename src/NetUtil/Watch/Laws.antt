-- ===== src/NetUtil/Watch/Laws.antt =====
-- What the goroutine of `CloseOnContext` closes, and that it comes to its end.
use caddy_bifrost.Base.{
  ℕ, ◌≡◌, refl, sym, ◌∙◌, ◌⊎◌, inl, inr, Bool, true, List, [], ◌∷◌, ◌++◌, arith,
}
use mathlib.Core.List.{append-nil, append_assoc}
use caddy_bifrost.NetUtil.Watch.{
  Watcher, at_select, over, closing, Watch, close_on_context, release, close_next, Step, cancels,
  releases, select_cancelled, select_released, closes, loop_ends, Reach, here, next,
}

-- What has been closed, wherever the goroutine is.
abbrev pub ClosedAt : List ℕ → Watch → Watcher → Type 0
ClosedAt conns w at_select = w.closed ≡ []
ClosedAt conns w (closing rest) = (w.cancelled ≡ true) × (w.closed ++ rest ≡ conns)
ClosedAt conns w over =
    ((w.released ≡ true) × (w.closed ≡ [])) ⊎ ((w.cancelled ≡ true) × (w.closed ≡ conns))

abbrev pub ClosedBy : List ℕ → Watch → Type 0
ClosedBy conns w = ClosedAt conns w w.watcher

module _ (conns : List ℕ) where
  Step-ClosedBy : {w v : Watch} → Step conns w v → ClosedBy conns w → ClosedBy conns v
  unfolding release close_next
  Step-ClosedBy {w} cancels h = cancels_keep w.watcher h
    where
      cancels_keep :
          (x : Watcher) → ClosedAt conns w x → ClosedAt conns (record w { cancelled = true }) x
      cancels_keep at_select c = c
      cancels_keep (closing rest) (set, c) = (refl, c)
      cancels_keep over (inl c) = inl c
      cancels_keep over (inr (set, c)) = inr (refl, c)
  Step-ClosedBy {w} (releases before) h = releases_keep w.watcher h
    where
      releases_keep :
          (x : Watcher) → ClosedAt conns w x → ClosedAt conns (record w { released = true }) x
      releases_keep at_select c = c
      releases_keep (closing rest) c = c
      releases_keep over (inl (set, c)) = inl (refl, c)
      releases_keep over (inr c) = inr c
  Step-ClosedBy {w} (select_cancelled at off) h = ground arith
  Step-ClosedBy {w} (select_released at off) h = ground arith
  Step-ClosedBy {w} (closes c rest at) h = ground (arith, append_assoc w.closed (c ∷ []) rest)
  Step-ClosedBy {w} (loop_ends at) h = ground (arith, append-nil w.closed)

  Reach-ClosedBy : {w v : Watch} → Reach conns w v → ClosedBy conns w → ClosedBy conns v
  Reach-ClosedBy here h = h
  Reach-ClosedBy (next r st) h = Step-ClosedBy st (Reach-ClosedBy r h)

  -- The connections are closed one after another from the first on, each once, and none before the
  -- context is cancelled: while the goroutine is at its `select`, none is closed; in its loop, those
  -- that are closed and those that are left are all; at its end, either all are closed and the context
  -- was cancelled, or none is and the watch was released.
  pub watch-ClosedBy :
      (cancelled : Bool) (w : Watch) → Reach conns (close_on_context cancelled) w → ClosedBy conns w
  unfolding close_on_context
  watch-ClosedBy cancelled w r = Reach-ClosedBy r refl

  Reach-trans : {u v w : Watch} → Reach conns u v → Reach conns v w → Reach conns u w
  Reach-trans r here = r
  Reach-trans r (next q st) = next (Reach-trans r q) st

  loop_runs :
      (rest : List ℕ) (w : Watch)
      → w.watcher ≡ closing rest
      → (v : Watch) × Reach conns w v × (v.watcher ≡ over) × (v.closed ≡ w.closed ++ rest)
  unfolding close_next
  loop_runs [] w at =
      (record w { watcher = over }, next here (loop_ends at), refl, sym (append-nil w.closed))
  loop_runs (c ∷ rest) w at =
      let (v, r, end, all) = loop_runs rest (close_next c rest w) refl in
      (
        v,
        Reach-trans (next here (closes c rest at)) r,
        end,
        all ∙ append_assoc w.closed (c ∷ []) rest,
      )

  -- A watch whose context is cancelled at its `select` can come to its end with all connections
  -- closed, and one that is released there can come to its end with none closed since.
  pub watch_ends :
      (w : Watch)
      → w.watcher ≡ at_select
      → ((w.cancelled ≡ true)
          → (v : Watch) × Reach conns w v × (v.watcher ≡ over) × (v.closed ≡ w.closed ++ conns))
        × ((w.released ≡ true)
            → (v : Watch) × Reach conns w v × (v.watcher ≡ over) × (v.closed ≡ w.closed))
  watch_ends w at = (
    (λ off.
        let (v, r, end, all) = loop_runs conns (record w { watcher = closing conns }) refl in
        (v, Reach-trans (next here (select_cancelled at off)) r, end, all)),
    (λ off. (record w { watcher = over }, next here (select_released at off), refl, refl)),
  )
