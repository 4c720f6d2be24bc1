-- ===== src/PageFlag/Refine.antt =====
-- The handlers' calls, seen from the owners of the pages.
use hyper_mi.Base.{ℕ, ◌≡◌, ◌≢◌, refl, ap, ◌∙◌, fun_ext, List, [], ◌∷◌}
use hyper_mi.PageFlag.Table.{Table, Host}
use hyper_mi.PageFlag.Invariant.{
  Step, Reach, check, map_page, merge, clean, inflate, deflate, here, next,
}
use hyper_mi.PageFlag.Owners.{
  Event, checks, maps, merges, frees, inflates, deflates, after, after_all,
}
use hyper_mi.PageFlag.After.{
  owners, IsAfter, IsAfter-maps, IsAfter-checks, IsAfter-frees, IsAfter-inflates, IsAfter-deflates,
  IsAfter-merges,
}

module _ (Vm : ℕ → Type 0) (host : Host) where
  abbrev pub event : {t u : Table} → Step Vm host t u → Event
  event (check pfn vcpu r run) = checks pfn vcpu
  event (map_page pfn vcpu r vm ready run) = maps pfn vcpu
  event (merge page kpage p q run) = merges page kpage
  event (clean page r small run) = frees page
  event (inflate page r small run) = inflates page
  event (deflate page r small run) = deflates page

  -- The calls of a run, the last one first.
  abbrev pub events : {s t : Table} → Reach Vm host s t → List Event
  events here = []
  events (next r st) = event st ∷ events r

  module _ (alive : (v : ℕ) → Vm v → v ≢ 0) where
    Step-owners :
        {t u : Table} (st : Step Vm host t u) (k : ℕ)
        → owners u k ≡ after host (event st) (owners t) k
    unfolding IsAfter
    Step-owners {t} {u} (check pfn vcpu r run) = IsAfter-checks host t u pfn vcpu r run
    Step-owners {t} {u} (map_page pfn vcpu r vm ready run) =
        IsAfter-maps host t u pfn vcpu r (alive (host.vcpu_kvm vcpu) vm) ready run
    Step-owners {t} {u} (merge page kpage p q run) = IsAfter-merges host t u page kpage p q run
    Step-owners {t} {u} (clean page r small run) = IsAfter-frees host t u page small r run
    Step-owners {t} {u} (inflate page r small run) = IsAfter-inflates host t u page small r run
    Step-owners {t} {u} (deflate page r small run) = IsAfter-deflates host t u page small r run

    -- Where no VM stands at address 0, the random numbers serve each report, and frame number 0 is
    -- not merged: after any sequence of the handlers' calls that return, the owners are those that
    -- the specification of the owners gives for just these calls.
    pub Reach-owners :
        {s t : Table} (r : Reach Vm host s t) → owners t ≡ after_all host (events r) (owners s)
    Reach-owners here = refl
    Reach-owners (next r st) =
        fun_ext (Step-owners st) ∙ ap (after host (event st)) (Reach-owners r)
