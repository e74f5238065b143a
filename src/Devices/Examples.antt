-- ===== src/Devices/Examples.antt =====
-- Three requests, of which the one in the middle is served first, on the way up.
use yuios.Common.{ℕ, ◌≡◌, refl, List, [], ◌∷◌, arith, member}
use yuios.Devices.{up, serve, request_nextreq, next_of, prev_of}
use yuios.Devices.Elevator.{NoDup, serve_all}

abbrev three_requests : List ℕ
three_requests = 4 ∷ 2 ∷ 9 ∷ []

-- after the last request on the way up the direction turns
served : serve 3 up 2 three_requests ≡ 2 ∷ 9 ∷ 4 ∷ []
unfolding serve request_nextreq next_of prev_of
served = refl

serve_all_example :
    ((y : ℕ) → member y (serve 3 up 2 three_requests) ≡ member y three_requests)
    × NoDup (serve 3 up 2 three_requests)
serve_all_example = serve_all 3 up 2 three_requests (refl, (refl, (refl, tt))) refl (omega arith)
