-- ===== src/Device/Tests.antt =====
-- Runs of device.cpp, and its theorems at them.
use vortex_os.Base.{ℕ, ◌≡◌, refl, ◌⊎◌, true, false, none, some, [], ◌∷◌, arith, has, erase}
use vortex_os.Device.{char, Device, Devices, device_find, device_register, device_unregister}
use vortex_os.Device.Registry.{
  IsRegistry, IsRefused, device_register-cases, device_unregister-cases,
}

-- The device `x` has the name that is the one character `x`.
abbrev drivers : ℕ → Device
drivers x = record {
  name = x ∷ [];
  kind = char;
  major = 0;
  minor = 0;
  ops = some 7;
  private_data = none;
}

abbrev empty : Devices
empty = record { devices = drivers; list = none; count = 0 }

empty-IsRegistry : IsRegistry empty []
empty-IsRegistry = record {
  linked = refl;
  distinct = tt;
  counted = refl;
  bounded = omega arith;
  named = λ x y h k e. cc;
}

-- The device 5 is registered.
abbrev one : Devices
one = record { devices = λ x. record (drivers x) { ops = none }; list = some 5; count = 1 }

one-IsRegistry : IsRegistry one (5 ∷ [])
one-IsRegistry = record {
  linked = (refl, refl);
  distinct = (refl, tt);
  counted = refl;
  bounded = omega arith;
  named = λ x y h k e. ground arith;
}

device_register-cases_example :
    ((device_register (some 6) one ≡ (false, one)) × IsRefused 6 one (5 ∷ []))
    ⊎ ((s' : Devices) × (device_register (some 6) one ≡ (true, s'))
        × (IsRefused 6 one (5 ∷ []) → ⊥)
        × IsRegistry s' (6 ∷ 5 ∷ [])
        × (device_find (some (6 ∷ [])) s' ≡ some 6)
        × ((s'.devices 6).ops ≡ none))
device_register-cases_example = device_register-cases 6 one (5 ∷ []) one-IsRegistry

device_unregister-cases_example :
    ((has 5 (5 ∷ []) ≡ false) × (device_unregister (some 5) one ≡ (false, one)))
    ⊎ ((s' : Devices) × (has 5 (5 ∷ []) ≡ true)
        × (device_unregister (some 5) one ≡ (true, s'))
        × IsRegistry s' (erase 5 (5 ∷ [])))
device_unregister-cases_example = device_unregister-cases 5 one (5 ∷ []) one-IsRegistry
