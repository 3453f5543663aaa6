-- ===== src/Update/Ending.antt =====
-- What an installation leaves, and what its result says, with every way its calls may be answered.
use siratis_nmbl_bootloader.Prelude.{◌≡◌, refl, subst, Option, List, Bytes, Outcome, ok, err}
use siratis_nmbl_bootloader.Update.Manifest.{Error, Libraries, Slot}
use siratis_nmbl_bootloader.Update.Bundle.{Node}
use siratis_nmbl_bootloader.Update.Disk.{Fate, Root, World}
use siratis_nmbl_bootloader.Update.Slots.{Limits, selected}
use siratis_nmbl_bootloader.Update.Install.{Installed, install, activated, unchanged}
use siratis_nmbl_bootloader.Update.Steps.{Post}
use siratis_nmbl_bootloader.Update.Survival.{Survival, Completed, still, install-Ensures, switched}

module _ (lib : Libraries) (public_key : Option Bytes) (source : Option Node) (d : Root)
    (active : Option Slot) (reads : selected d.selector ≡ ok active) where
  -- Whatever calls fail, and wherever the machine stops: the active slot's directory (B where the
  -- selector is absent) and the selector are unchanged, or that directory is unchanged, the selector
  -- names the other slot and the other slot's directory validates with the manifest of the given
  -- bundle, which validated. Condition: the selector was absent or well formed.
  pub install-Survival :
      (limits : Limits) (fates : List Fate)
      → Survival lib public_key source d active
          (install lib public_key source limits (record { root = d; fates = fates })).1.root
  install-Survival limits fates =
      of_post (install lib public_key source limits (record { root = d; fates = fates })) (
        (install-Ensures lib public_key source d active reads limits).run
          (record { root = d; fates = fates }) refl)
    where
      of_completed :
          (a : Installed) (r : Root)
          → Completed lib public_key source d active a r
          → Survival lib public_key source d active r
      of_completed (activated t) r h = switched (h.0) (h.1) (h.3)
      of_completed (unchanged t) r h = still lib public_key source d active reads r (h.3)

      of_post :
          (result : Outcome Error Installed × World)
          → Post
              (Completed lib public_key source d active)
              (Survival lib public_key source d active)
              result
          → Survival lib public_key source d active result.1.root
      of_post (ok a, w) h = of_completed a w.root h
      of_post (err why, w) h = h

  -- Where the installation says that it activated a slot, that is the one the selector did not name (A
  -- where there was none), the selector names it, its directory validates with the manifest of the
  -- given bundle, and the other slot is unchanged; where it says unchanged, nothing has changed and the
  -- active slot's directory validates with that manifest. Condition: the selector was absent or well
  -- formed.
  pub install-Completed :
      (limits : Limits) (fates : List Fate) (result : Installed)
      → (install lib public_key source limits (record { root = d; fates = fates })).0 ≡ ok result
      → Completed lib public_key source d active result
          (install lib public_key source limits (record { root = d; fates = fates })).1.root
  install-Completed limits fates result said =
      of_result (install lib public_key source limits (record { root = d; fates = fates }))
        ((install-Ensures lib public_key source d active reads limits).run
          (record { root = d; fates = fates }) refl)
        said
    where
      of_result :
          (run : Outcome Error Installed × World)
          → Post
              (Completed lib public_key source d active)
              (Survival lib public_key source d active)
              run
          → run.0 ≡ ok result
          → Completed lib public_key source d active result run.1.root
      of_result (ok a, w) h e =
          subst (λ q. Completed lib public_key source d active q w.root) (cc) h
      of_result (err why, w) h e = absurd (cc)
