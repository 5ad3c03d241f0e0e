-- ===== src/Dev.antt =====
-- Device numbers and drivers: morelib/dev.c and morelib/include/morelib/dev.h.
mod Numbers
mod Tests
use morelibc.Base.{
  ℕ, ◌*◌, ◌/◌, ◌^◌, Bool, Option, none, some, List, [], ◌∷◌, ◌==◌, if◌then◌else◌, bit_and, bit_or,
  Result, ok, err, enodev, enosys,
}

unfoldable pub makedev : ℕ → ℕ → ℕ
makedev maj min = bit_or (bit_and maj 0xff * 2 ^ 8) (bit_and min 0xff)

unfoldable pub major : ℕ → ℕ
major dev = bit_and (dev / 2 ^ 8) 0xff

unfoldable pub minor : ℕ → ℕ
minor dev = bit_and dev 0xff

-- `struct dev_driver`: its functions are parameters, none where the pointer is NULL. `open_device`, the `open` of C, gives a
-- file, `stat` a device's attributes, each a number here.
pub record Driver : Type 0 where
  pub dev : ℕ
  pub open_device : Option (ℕ → ℕ → Result ℕ)
  pub stat : Option (ℕ → Result ℕ)

-- `finddev`, over `dev_drvs`.
unfoldable pub finddev : List Driver → ℕ → Option Driver
finddev [] dev = none
finddev (drv ∷ drvs) dev = if major drv.dev == major dev then some drv else finddev drvs dev

unfoldable pub opendev : List Driver → ℕ → ℕ → Result ℕ
opendev drvs dev flags = elim (finddev drvs dev) [
  | none ↦ err enodev
  | some drv ↦ elim drv.open_device [ none ↦ err enosys | some open_device ↦ open_device dev flags ]
]

unfoldable pub statdev : List Driver → ℕ → Result ℕ
statdev drvs dev = elim (finddev drvs dev) [
  | none ↦ err enodev
  | some drv ↦ elim drv.stat [ none ↦ err enosys | some stat ↦ stat dev ]
]
