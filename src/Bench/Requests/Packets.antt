-- ===== src/Bench/Requests/Packets.antt =====
-- A packet is written once.
use zpq.Common.{◌≡◌, ◌≢◌, refl, sym, ap, ◌∙◌, inl, inr}
use zpq.Common.Tests.{Bool-cases}
use zpq.Common.Result.{ok, raised, ok-injective, value_error}
use zpq.Bench.Requests.Inputs.{File, absent, link, content, write_packet}
use Prim.Native.String.{String}
use text.Mathlib.Text.{◌==◌ as str_eq}
use text.Mathlib.TextEquality.{eq_iff}

written : (v : String) (f g : File) → write_packet v f ≡ ok g → g ≡ content v
unfolding write_packet
written v absent g h = sym (ok-injective h)
written v link g h = cc
written v (content c) g h = elim (Bool-cases (str_eq c v)) [
  | inl same ↦ sym (ok-injective (rw same at h)) ∙ ap content ((eq_iff c v).0 same)
  | inr other ↦ absurd (raised_ok (rw other at h))
]
  where
    raised_ok : raised value_error ≡ ok g → ⊥
    raised_ok e = cc

again : (v : String) → write_packet v (content v) ≡ ok (content v)
unfolding write_packet
again v = rw ((eq_iff v v).1 refl) refl

conflict : (v w : String) → w ≢ v → write_packet w (content v) ≡ raised value_error
unfolding write_packet
conflict v w h = elim (Bool-cases (str_eq v w)) [
  | inl same ↦ absurd (h (sym ((eq_iff v w).0 same)))
  | inr other ↦ rw other refl
]

-- A packet that is written is what the file holds; to write it again changes nothing, and another packet is
-- refused there.
pub write_packet_once :
    (v w : String) (f g : File)
    → w ≢ v
    → write_packet v f ≡ ok g
    → (g ≡ content v) × (write_packet v g ≡ ok g) × (write_packet w g ≡ raised value_error)
write_packet_once v w f g differs h =
    let same = written v f g h in rw same (refl, again v, conflict v w differs)
