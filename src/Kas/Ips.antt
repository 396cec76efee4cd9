-- ===== src/Kas/Ips.antt =====
-- `nextIP` and `firstIP` of pkg/controllers/kubeservice/kas/certs.go.
pub mod Laws
use hypershift_lite.Prelude.{ℕ, ◌+◌, ◌%◌, ◌^◌, Bool, List, [], ◌∷◌, ◌++◌, ltb, if◌then◌else◌}
use hypershift_lite.Api.{Bytes}
use mathlib.Core.List.{reverse}

-- The loop, over the bytes from the last to the first: `nextIP[j]++` wraps at 256, and the loop
-- stops at a byte that did not wrap to 0.
unfoldable pub increment : Bytes → Bytes
increment [] = []
increment (b ∷ rest) =
    let next = (b + 1) % 2 ^ 8 in
    let carried = increment rest in if ltb 0 next then next ∷ rest else next ∷ carried

unfoldable pub next_ip : Bytes → Bytes
unfolding increment
next_ip ip = reverse (increment (reverse ip))

-- firstIP of a network with this address
unfoldable pub first_ip : Bytes → Bytes
unfolding next_ip
first_ip network = next_ip network
