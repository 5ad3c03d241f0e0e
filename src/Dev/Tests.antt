-- ===== src/Dev/Tests.antt =====
-- Devices of morelib/include/morelib/dev.h.
use morelibc.Base.{◌≡◌, refl, List, [], ◌∷◌, none, some, ok, err, enodev, enosys}
use morelibc.Dev.{major, Driver, finddev, opendev}

abbrev drivers : List Driver
drivers =
    record { dev = 0x0101; open_device = some (λ dev flags. ok dev); stat = none }
    ∷ record { dev = 0x0700; open_device = none; stat = none }
    ∷ []

null_opens : opendev drivers 0x0103 0 ≡ ok 0x0103
unfolding opendev finddev major
null_opens = refl

no_open : opendev drivers 0x0701 0 ≡ err enosys
unfolding opendev finddev major
no_open = refl

no_driver : opendev drivers 0x5a00 0 ≡ err enodev
unfolding opendev finddev major
no_driver = refl
