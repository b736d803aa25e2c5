-- ===== src/Device.antt =====
-- The device registry: src/kernel/device.cpp. A `Device*` is a number, a null pointer is `none`.
pub mod Registry
mod Tests
use vortex_os.Base.{
  ℕ, suc, ◌+◌, ◌-◌, ◌%◌, ◌^◌, Bool, true, false, ◌||◌, Option, none, some, leb, if◌then◌else◌,
  is_none, update, find_link, find_pointer, head_after, links_after, Text, same_text,
}

pub data DeviceType : Type 0 where
  char block net : DeviceType

pub record Device : Type 0 where
  pub name : Text
  pub kind : DeviceType
  pub major : ℕ
  pub minor : ℕ
  pub ops : Option ℕ
  pub private_data : Option ℕ

pub record Devices : Type 0 where
  pub devices : ℕ → Device
  pub list : Option ℕ
  pub count : ℕ

abbrev pub max_devices : ℕ
max_devices = 128

-- The registered devices are linked by `private_data`.
abbrev pub link : Devices → ℕ → Option ℕ
link s x = (s.devices x).private_data

abbrev pub set_device : ℕ → Device → Devices → Devices
set_device i d s = record s { devices = update s.devices i d }

abbrev pub set_link : ℕ → Option ℕ → Devices → Devices
set_link i p s = set_device i (record (s.devices i) { private_data = p }) s

unfoldable pub device_manager_init : Devices → Devices
device_manager_init s = record s { list = none; count = 0 }

-- The walk is on fuel: no more steps than there are devices.
unfoldable pub device_find : Option Text → Devices → Option ℕ
device_find none s = none
device_find (some name) s =
    find_link (suc s.count) (link s) (λ x. same_text (s.devices x).name name) s.list

-- The part of `device_register` behind its checks.
unfoldable pub prepend : ℕ → Devices → Devices
prepend i s =
    let s1 = set_device i (record (s.devices i) { private_data = none; ops = none }) s in
    let s2 = set_link i s1.list (record s1 { list = some i }) in
    record s2 { count = (s2.count + 1) % 2 ^ 32 }

unfoldable pub device_register : Option ℕ → Devices → Bool × Devices
device_register none s = (false, s)
device_register (some i) s =
    if leb max_devices s.count
    then (false, s)
    else if is_none (device_find (some (s.devices i).name) s)
    then (true, prepend i s)
    else (false, s)

-- `*prev = curr->private_data`, `prev` being the link of `at` or the head of the list.
unfoldable pub overwrite : Option ℕ → ℕ → Devices → Devices
overwrite none i s = record s { list = link s i; count = (s.count + 2 ^ 32 - 1) % 2 ^ 32 }
overwrite (some p) i s = record (set_link p (link s i) s) {
  count = (s.count + 2 ^ 32 - 1) % 2 ^ 32;
}

unfoldable pub device_unregister : Option ℕ → Devices → Bool × Devices
device_unregister none s = (false, s)
device_unregister (some i) s =
    if is_none s.list
    then (false, s)
    else elim (find_pointer (suc s.count) (link s) i none s.list) [
      | none ↦ (false, s)
      | some at ↦ (true, overwrite at i s)
    ]
