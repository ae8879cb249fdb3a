-- ===== src/NetUtil/Watch.antt =====
-- internal/netutil/netutil.go: `CloseOnContext`, whose goroutine closes connections when a context is
-- cancelled, until the function that it returns is called. A connection is a number.
pub mod Laws
use caddy_bifrost.Base.{ℕ, Bool, true, false, List, [], ◌∷◌, ◌++◌, ◌≡◌}

-- The goroutine: at its `select`, in its loop with these connections left, or at its end.
pub data Watcher : Type 0 where
  at_select over : Watcher
  closing : List ℕ → Watcher

-- `released` tells that the channel `done` is closed. `closed` is what the goroutine has closed.
pub record Watch : Type 0 where
  pub cancelled : Bool
  pub released : Bool
  pub watcher : Watcher
  pub closed : List ℕ

-- `CloseOnContext` on a context that may be cancelled already.
unfoldable pub close_on_context : Bool → Watch
close_on_context cancelled = record {
  cancelled = cancelled;
  released = false;
  watcher = at_select;
  closed = [];
}

-- The function that it returns. A second call would panic.
unfoldable pub release : Watch → Watch
release w = record w { released = true }

-- The body of the loop.
unfoldable pub close_next : ℕ → List ℕ → Watch → Watch
close_next c rest w = record w { watcher = closing rest; closed = w.closed ++ (c ∷ []) }

-- The steps of the goroutine and of its surroundings, for the connections `conns`. Where both cases
-- of the `select` are ready, Go takes either.
pub data Step (conns : List ℕ) (w : Watch) : Watch → Type 0 where
  cancels : Step conns w (record w { cancelled = true })
  releases : w.released ≡ false → Step conns w (release w)
  select_cancelled :
      w.watcher ≡ at_select
      → w.cancelled ≡ true
      → Step conns w (record w { watcher = closing conns })
  select_released :
      w.watcher ≡ at_select → w.released ≡ true → Step conns w (record w { watcher = over })
  closes :
      (c : ℕ) (rest : List ℕ) → w.watcher ≡ closing (c ∷ rest) → Step conns w (close_next c rest w)
  loop_ends : w.watcher ≡ closing [] → Step conns w (record w { watcher = over })

pub data Reach (conns : List ℕ) (w : Watch) : Watch → Type 0 where
  here : Reach conns w w
  next : {u v : Watch} → Reach conns w u → Step conns u v → Reach conns w v
