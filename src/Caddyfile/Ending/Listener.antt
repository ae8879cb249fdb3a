-- ===== src/Caddyfile/Ending/Listener.antt =====
-- The parser of the listener wrapper ends on every input.
use caddy_bifrost.Base.{ℕ, ◌≤◌, ◌<◌, ◌≢◌, Bool, true, false, arith, err}
use caddy_bifrost.Text.{Text, text, text_eq}
use caddy_bifrost.Caddyfile.{Dispenser, wrong_args, out_of_fuel}
use caddy_bifrost.Caddyfile.App.{
  ListenerConfig, app_arg, second_arg, route_args, listener_line, parse_listener,
}
use caddy_bifrost.Caddyfile.Ending.{
  Progress, Ends, HandlerEnds, stop_Ends, done_Ends, later_Ends, if-Ends, unless_arg-Ends,
  each_line-Ends,
}

module _ {D : Type 0} (o : Dispenser D) (m : Progress o) where
  open m use {left}

  app_arg-Ends :
      (d : D) (q : D × Bool) (w : ListenerConfig) → left q.0 ≤ left d → Ends o m d (app_arg o q w)
  unfolding app_arg
  app_arg-Ends d (d', false) w h = record { on = h; fuelled = λ k. cc }
  app_arg-Ends d (d', true) w h =
      later_Ends o m d d' _ h
        (unless_arg-Ends o m d' _ _ λ d'' h'. done_Ends o m d'' _ _ (omega arith))

  second_arg-Ends :
      (server_name : Text) (d : D) (q : D × Bool) (w : ListenerConfig)
      → left q.0 ≤ left d
      → Ends o m d (second_arg o server_name q w)
  unfolding second_arg
  second_arg-Ends server_name d (d', false) w h = record { on = h; fuelled = λ k. cc }
  second_arg-Ends server_name d (d', true) w h =
      later_Ends o m d d' _ h
        (unless_arg-Ends o m d' _ w λ d'' h'. done_Ends o m d'' _ _ (omega arith))

  route_args-Ends :
      (d : D) (q : D × Bool) (w : ListenerConfig)
      → left q.0 ≤ left d
      → Ends o m d (route_args o q w)
  unfolding route_args
  route_args-Ends d (d', false) w h = record { on = h; fuelled = λ k. cc }
  route_args-Ends d (d', true) w h =
      later_Ends o m d d' _ h (second_arg-Ends (o.val d') d' (o.next_arg d') w (m.arg_on d'))

  listener_line-Ends : HandlerEnds o m (listener_line o)
  unfolding listener_line
  listener_line-Ends fuel d s v at enough = rw at (
      (if-Ends o m (text_eq v (text "app")) (app_arg-Ends d (o.next_arg d) s (m.arg_on d)) (
        if-Ends o m (text_eq v (text "route_sni")) (route_args-Ends d (o.next_arg d) s (m.arg_on d))
          (stop_Ends o m d s wrong_args (λ h. cc)))))

  -- The parser of the listener wrapper ends on every input, well formed or not, with more fuel than
  -- there are tokens in front of the cursor.
  pub parse_listener_ends :
      (fuel : ℕ) (d : D) (w : ListenerConfig)
      → left d < fuel
      → (parse_listener o fuel d w).2 ≢ err out_of_fuel
  unfolding parse_listener
  parse_listener_ends fuel d w enough =
      (unless_arg-Ends o m (o.next d).0 _ w λ d' h.
        each_line-Ends o m (listener_line o) listener_line-Ends fuel 0 d' w
          (omega (arith, m.next_on d))).fuelled
