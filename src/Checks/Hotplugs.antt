-- ===== src/Checks/Hotplugs.antt =====
-- The theorem on the hotplug monitoring, at a concrete input.
use usb_lib.Prelude.{◌≡◌, List, [], ◌∷◌, ◌++◌, true, false, some, arith}
use usb_lib.Sender.Manager.{usb_device_manager, cleanup_manager}
use usb_lib.Sender.Manager.Registration.{shut, accepts}
use usb_lib.Sender.Manager.Hotplug.{
  Operation, initializing, cleaning, starting, stopping, run, Matches, Follows, AllAllowed,
  run-Registration,
}

-- The context is opened twice, with a cleanup between.
abbrev day : List Operation
day =
    starting true (some 1)
    ∷ initializing (some 7)
    ∷ starting true (some 1)
    ∷ starting true (some 2)
    ∷ cleaning
    ∷ initializing (some 8)
    ∷ starting true (some 3)
    ∷ stopping
    ∷ []

day-AllAllowed : AllAllowed false day
day-AllAllowed =
    (omega arith, (tt, (omega arith, (omega arith, (tt, (tt, (omega arith, (tt, tt))))))))

run-Registration_example :
    Follows shut (run usb_device_manager day)
    × (let (m, outcome, calls) = run usb_device_manager day in
        let (m', outcome', more) = cleanup_manager m in
        (accepts shut (calls ++ more) ≡ some shut) × Matches m' shut)
run-Registration_example = run-Registration day day-AllAllowed
