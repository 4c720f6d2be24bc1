-- ===== src/Kvm/Walk.antt =====
-- The two loops of `new_tdp_page_fault` over the VMs.
use hyper_mi.Base.{
  ℕ, zero, suc, ◌+◌, ◌≤◌, ◌<◌, ◌≡◌, refl, ap, ◌∙◌, arith, true, false, ltb, ◌==◌, Bool-cases, inl,
  inr, ==_refl, ==_of_ne, update, List, [], ◌∷◌, length, get_or, ok, fault,
}
use hyper_mi.Gate.Machine.{Machine, KvmPfnSt}
use hyper_mi.Kvm.Tdp.{is_vm, list_vms, find_vm}

-- From `p` on, the list heads that the walk takes for VMs.
pub data Chain (next : ℕ → ℕ) : ℕ → List ℕ → Type 0 where
  stop : {p : ℕ} → is_vm p ≡ false → Chain next p []
  more : {p : ℕ} {ps : List ℕ} → is_vm p ≡ true → Chain next (next p) ps → Chain next p (p ∷ ps)

abbrev pub entered : List ℕ → ℕ → (ℕ → KvmPfnSt) → ℕ → KvmPfnSt
entered [] n f = f
entered (p ∷ ps) n f = entered ps (n + 1) (update f n (record (f n) { kvm1 = p }))

entered-below : (ps : List ℕ) (n i : ℕ) (f : ℕ → KvmPfnSt) → i < n → entered ps n f i ≡ f i
entered-below [] n i f low = refl
entered-below (p ∷ ps) n i f low =
    entered-below ps (n + 1) i (update f n (record (f n) { kvm1 = p })) (omega arith)
    ∙ rw (==_of_ne i n (λ e. absurd (omega arith)))

entered-kvm1 :
    (ps : List ℕ) (n i : ℕ) (f : ℕ → KvmPfnSt)
    → i < length ps
    → (entered ps n f (n + i)).kvm1 ≡ get_or ps i 0
entered-kvm1 [] n i f low = absurd (omega arith)
entered-kvm1 (p ∷ ps) n zero f low =
    let e : n + 0 ≡ n = omega arith in
    rw (
      e,
      entered-below ps (n + 1) n (update f n (record (f n) { kvm1 = p })) (omega arith),
      ==_refl n,
    )
entered-kvm1 (p ∷ ps) n (suc i) f low =
    let e : n + suc i ≡ n + 1 + i = omega arith in
    rw e (entered-kvm1 ps (n + 1) i (update f n (record (f n) { kvm1 = p })) (omega arith))

pub entered-all :
    (ps : List ℕ) (i : ℕ) (f : ℕ → KvmPfnSt)
    → i < length ps
    → (entered ps 0 f i).kvm1 ≡ get_or ps i 0
entered-all ps i f low =
    let e : i ≡ 0 + i = omega arith in
    ap (λ n. (entered ps 0 f n).kvm1) e ∙ entered-kvm1 ps 0 i f low

-- The list fits into the array.
pub list_vms-entered :
    (ps : List ℕ) (fuel p : ℕ) (m : Machine)
    → Chain m.next p ps
    → m.current_num_vm + length ps ≤ 6
    → length ps < fuel
    → list_vms fuel p m
      ≡ ok tt (record m {
        kvm_pfn_str = entered ps m.current_num_vm m.kvm_pfn_str;
        current_num_vm = m.current_num_vm + length ps;
      })
unfolding list_vms
list_vms-entered ps zero p m chain fits enough = absurd (omega arith)
list_vms-entered [] (suc fuel) p m (stop out) fits enough =
    rw out (ap (λ n. ok tt (record m { current_num_vm = n })) (omega arith))
list_vms-entered (q ∷ ps) (suc fuel) p m (more vm chain) fits enough =
    let room : ltb m.current_num_vm 6 ≡ true = ground arith in
    rw (vm, room)
      (list_vms-entered ps fuel (m.next p) _ chain (omega arith) (omega arith)
        ∙ ap
            (λ n. ok tt (record m {
              kvm_pfn_str = entered (q ∷ ps) m.current_num_vm m.kvm_pfn_str;
              current_num_vm = n;
            }))
            (omega arith))

-- A list that does not fit runs over the end of the array.
pub list_vms-overruns :
    (ps : List ℕ) (fuel p : ℕ) (m : Machine)
    → Chain m.next p ps
    → 6 < m.current_num_vm + length ps
    → m.current_num_vm ≤ 6
    → 6 < fuel + m.current_num_vm
    → list_vms fuel p m ≡ fault
unfolding list_vms
list_vms-overruns ps zero p m chain over low enough = absurd (omega arith)
list_vms-overruns [] (suc fuel) p m chain over low enough = absurd (omega arith)
list_vms-overruns (q ∷ ps) (suc fuel) p m (more vm chain) over low enough =
    elim (Bool-cases (ltb m.current_num_vm 6)) [
      | inl room ↦
          rw (vm, room)
            (list_vms-overruns ps fuel (m.next p) _ chain (omega arith) (ground arith)
              (omega arith))
      | inr full ↦ rw (vm, full) refl
    ]

pub find_vm-found :
    (n i j kvm : ℕ) (m : Machine)
    → i ≤ j
    → j < i + n
    → (m.kvm_pfn_str j).kvm1 ≡ kvm
    → ((l : ℕ) → i ≤ l → l < j → (kvm == (m.kvm_pfn_str l).kvm1) ≡ false)
    → find_vm n i kvm m ≡ record m { num_vm_this = j }
unfolding find_vm
find_vm-found zero i j kvm m low high e first = absurd (omega arith)
find_vm-found (suc n) i j kvm m low high e first = elim (Bool-cases (i == j)) [
  | inl same ↦ let at_j : i ≡ j = ground arith in rw (at_j, e, ==_refl kvm) refl
  | inr differs ↦
      let before : i < j = ground arith in
      rw (first i (omega arith) before) (
        find_vm-found n (i + 1) j kvm m (omega arith) (omega arith) e
          (λ l a b. first l (omega arith) b))
]

pub find_vm-none :
    (n i kvm : ℕ) (m : Machine)
    → ((l : ℕ) → i ≤ l → l < i + n → (kvm == (m.kvm_pfn_str l).kvm1) ≡ false)
    → find_vm n i kvm m ≡ m
unfolding find_vm
find_vm-none zero i kvm m none = refl
find_vm-none (suc n) i kvm m none =
    rw (none i (omega arith) (omega arith))
      (find_vm-none n (i + 1) kvm m (λ l a b. none l (omega arith) (omega arith)))
