-- ===== src/Server/Shutdown.antt =====
-- How `main` of host/camera/stream_server.py ends.
use mousinator.Server.{
  Step, Made, closes_service, closes_vision, shuts_server, closes_server, joins_thread, main, Main,
  Program,
}
use mousinator.Prelude.Exec.{Result, ok, err}
use mousinator.Prelude.{◌&&◌, [], ◌∷◌, List, Bool, ℕ, true, false, ◌≡◌, arith, ◌||◌, if◌then◌else◌}

abbrev pub is_step : Step → Made → Bool
is_step shuts_server c = elim (c.step) [ shuts_server ↦ true | _ ↦ false ]
is_step closes_server c = elim (c.step) [ closes_server ↦ true | _ ↦ false ]
is_step joins_thread c = elim (c.step) [ joins_thread ↦ true | _ ↦ false ]
is_step closes_vision c = elim (c.step) [ closes_vision ↦ true | _ ↦ false ]
is_step closes_service c = elim (c.step) [ closes_service ↦ true | _ ↦ false ]
is_step _ c = false

abbrev pub any_raised : List Made → Bool
any_raised [] = false
any_raised (c ∷ cs) = c.raised || any_raised cs

-- The newest calls are the closes of the services, behind the end of the server if it was made.
abbrev pub ends_closed : Bool → List Made → Bool
ends_closed false (c ∷ v ∷ rest) = is_step closes_service c && is_step closes_vision v
ends_closed true (c ∷ v ∷ j ∷ d ∷ u ∷ rest) =
    is_step closes_service c
    && is_step closes_vision v
    && is_step joins_thread j
    && is_step closes_server d
    && is_step shuts_server u
ends_closed _ _ = false

-- The newest call is one that ends the server, and it raised.
abbrev pub failed_to_shut : List Made → Bool
failed_to_shut [] = false
failed_to_shut (c ∷ cs) =
    c.raised && (is_step shuts_server c || is_step closes_server c || is_step joins_thread c)

-- What `main` returned or raised, and its calls.
abbrev pub EndsClosed : {W : Type 0} → Result ℕ → Main W → Type 0
EndsClosed (ok code) s =
    (ends_closed s.has_server s.calls ≡ true) × (code ≡ (if any_raised s.calls then 1 else 0))
EndsClosed (err e) s = (failed_to_shut s.calls ≡ true) × (s.has_server ≡ true)

module _ {W : Type 0} (program : Program W) where
  -- Where `main` returns, its last calls are the close of the vision service and then that of the
  -- camera service, behind the shutdown and the close of the server and the join of its thread if the
  -- server was made; the exit code is 1 if any call raised and 0 if none did. It raises only if the
  -- shutdown or the close of the server or the join raised, and that was its last call, so that no
  -- service is closed then.
  pub main-EndsClosed : (w : W) → EndsClosed (main program w).0 (main program w).1
  unfolding main
  main-EndsClosed w = ground arith
