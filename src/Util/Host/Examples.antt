-- ===== src/Util/Host/Examples.antt =====
-- A host that is not found looks like the broadcast address.
use robo_band.Base.{◌≡◌, refl, true, false}
use robo_band.Util.Host.{failed, found, to_in_addr}

not_found : to_in_addr (λ hints. failed) ≡ to_in_addr (λ hints. found 0xffffffff false)
unfolding to_in_addr
not_found = refl

several : to_in_addr (λ hints. found 0x0100007f true) ≡ (0x0100007f, true)
unfolding to_in_addr
several = refl
