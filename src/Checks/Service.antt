-- ===== src/Checks/Service.antt =====
-- python/zpq_service.py: requests to a service whose library answers every query alike.
use zpq.Common.{ℕ, ◌≡◌, refl, true, some, none}
use zpq.Common.Int.{pos}
use zpq.Service.{Header, Ran, answered, do_post}
use zpq.Service.Laws.{Proper, do_post-Proper}

abbrev five_bytes : Header
five_bytes = record { as_int = some (pos 5); is_digits = true }

abbrev ten : ℕ → Ran
ten n = answered "{\"agg\":{\"n\":10}}"

five_bytes_good : (do_post "/query" (some five_bytes) ten).status ≡ 200
unfolding do_post
five_bytes_good = refl

no_length_refused : (do_post "/query" none ten).status ≡ 411
unfolding do_post
no_length_refused = refl

do_post-Proper_example : Proper ten (do_post "/query" (some five_bytes) ten)
do_post-Proper_example = do_post-Proper "/query" (some five_bytes) ten
