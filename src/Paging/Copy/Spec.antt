-- ===== src/Paging/Copy/Spec.antt =====
-- Commands of the copies that end and keep memory: each asks for at most a given number of pages,
-- and changes only words that are marked as fresh.
use hyper_mi.Base.{
  ℕ, zero, suc, ◌+◌, ◌*◌, ◌≤◌, ◌<◌, ◌≡◌, ◌≢◌, refl, ◌∙◌, arith, Bool, true, false, ◌==◌,
  if◌then◌else◌, Bool-cases, inl, inr, ==_of_ne, update, within, Cmd, pure, ◌>>◌, ◌>>=◌, Returns,
  ◌&&◌, ◌||◌, not, Returns-and_then, List, [], ◌∷◌,
}
use hyper_mi.Paging.Loop.{Memory}
use hyper_mi.Paging.Protect.{at}
use hyper_mi.Paging.Store.{
  Store, PageKernel, change, load, put_word, draw_page, take_page, for_steps, page_is_null,
}

-- What the kernel's functions do: each sets one word, and a page is cleared and nothing else.
pub record IsStoring (k : PageKernel) : Type 0 where
  pub set_pgd_stores : (a v : ℕ) (f : Memory) → k.set_pgd a v f ≡ update f a v
  pub set_pud_stores : (a v : ℕ) (f : Memory) → k.set_pud a v f ≡ update f a v
  pub set_pmd_stores : (a v : ℕ) (f : Memory) → k.set_pmd a v f ≡ update f a v
  pub set_pte_stores : (a v : ℕ) (f : Memory) → k.set_pte a v f ≡ update f a v
  pub clear_page_clears :
      (a : ℕ) (f : Memory) (x : ℕ) → k.clear_page a f x ≡ (if within a 4096 x then 0 else f x)

-- The calls of the allocator that will succeed.
abbrev pub good : List ℕ → ℕ
good [] = 0
good (a ∷ rest) = (if a == 0 then 0 else 1) + good rest

-- The word stands in a page that the allocator will give.
abbrev pub covered : List ℕ → ℕ → Bool
covered [] x = false
covered (a ∷ rest) x = (not (a == 0) && within a 4096 x) || covered rest x

-- The pages that the allocator will give do not overlap.
abbrev pub IsSeparate : List ℕ → Type 0
IsSeparate [] = Unit
IsSeparate (a ∷ rest) =
    (a ≢ 0 → (x : ℕ) → within a 4096 x ≡ true → covered rest x ≡ false) × IsSeparate rest

-- Pages that are left of others.
pub record IsLeft (before after : List ℕ) : Type 0 where
  pub fewer : (x : ℕ) → covered before x ≡ false → covered after x ≡ false
  pub separate : IsSeparate before → IsSeparate after

pub IsLeft-same : (l : List ℕ) → IsLeft l l
IsLeft-same l = record { fewer = λ x h. h; separate = λ h. h }

IsLeft-rest : (a : ℕ) (l m : List ℕ) → IsLeft l m → IsLeft (a ∷ l) m
IsLeft-rest a l m h = record {
  fewer = λ x e. h.fewer x (ground arith);
  separate = λ e. h.separate e.1;
}

module _ (fresh : ℕ → Bool) where
  abbrev pub IsFreshPage : ℕ → Type 0
  IsFreshPage a = (x : ℕ) → within a 4096 x ≡ true → fresh x ≡ true

  abbrev pub AllFresh : List ℕ → Type 0
  AllFresh [] = Unit
  AllFresh (a ∷ rest) = (a ≢ 0 → IsFreshPage a) × AllFresh rest

  pub IsFreshPage-at : (a i : ℕ) → i < 512 → IsFreshPage a → fresh (at a i) ≡ true
  IsFreshPage-at a i low h = h (at a i) (ground arith)

  pub record Kept (s u : Store) : Type 0 where
    pub memory : (x : ℕ) → fresh x ≡ false → u.memory x ≡ s.memory x
    pub cr3 : u.cr3 ≡ s.cr3
    pub pgd_addr_cp : u.pgd_addr_cp ≡ s.pgd_addr_cp
    pub pages : IsLeft s.pages u.pages

  pub Kept-trans : (s t u : Store) → Kept s t → Kept t u → Kept s u
  Kept-trans s t u p q = record {
    memory = λ x h. q.memory x h ∙ p.memory x h;
    cr3 = q.cr3 ∙ p.cr3;
    pgd_addr_cp = q.pgd_addr_cp ∙ p.pgd_addr_cp;
    pages = record {
      fewer = λ x h. q.pages.fewer x (p.pages.fewer x h);
      separate = λ h. q.pages.separate (p.pages.separate h);
    };
  }

  -- With `cost` calls that will succeed, and `more` besides, the command ends and leaves `more`.
  abbrev pub Costs {κ} : {A : Type κ} → ℕ → Cmd Store A → Type κ
  Costs cost c =
      (s : Store) (more : ℕ)
      → AllFresh s.pages
      → cost + more ≤ good s.pages
      → Returns (c s) λ _ u. Kept s u × AllFresh u.pages × (more ≤ good u.pages)

  pub Costs-weaken : (c d : ℕ) (a : Cmd Store (Unit {0})) → c ≤ d → Costs c a → Costs d a
  Costs-weaken c d a low h s more fresh_pages enough = h s more fresh_pages (omega arith)

  pub Costs-then :
      (c d : ℕ) (a b : Cmd Store (Unit {0})) → Costs c a → Costs d b → Costs (c + d) (a >> b)
  Costs-then c d a b ha hb s more fresh_pages enough =
      Returns-and_then (ha s (d + more) fresh_pages (omega arith)) λ _ t p.
        let (v, u, run, q) = hb t more p.1 p.2 in (v, u, run, (Kept-trans s t u p.0 q.0, q.1, q.2))

  pub Costs-pure : Costs 0 (pure {S = Store} (tt {0}))
  Costs-pure s more fresh_pages enough = (
    tt,
    s,
    refl,
    (
      record { memory = λ x h. refl; cr3 = refl; pgd_addr_cp = refl; pages = IsLeft-same s.pages },
      fresh_pages,
      omega arith,
    ),
  )

  pub Costs-load :
      (c a : ℕ) (f : ℕ → Cmd Store (Unit {0})) → ((e : ℕ) → Costs c (f e)) → Costs c (load a >>= f)
  Costs-load c a f h s = h (s.memory a) s

  pub Costs-if :
      (c : ℕ) (b : Bool) (x y : Cmd Store (Unit {0}))
      → Costs c x
      → Costs c y
      → Costs c (if b then x else y)
  Costs-if c true x y hx hy = hx
  Costs-if c false x y hx hy = hy

  other_word : (a x : ℕ) → fresh a ≡ true → fresh x ≡ false → x ≢ a
  other_word a x p q e = absurd (cc)

  pub Costs-put : (a v : ℕ) → fresh a ≡ true → Costs 0 (put_word a v)
  Costs-put a v h s more fresh_pages enough = (
    tt,
    _,
    refl,
    (
      record {
        memory = λ x out. rw (==_of_ne x a (other_word a x h out));
        cr3 = refl;
        pgd_addr_cp = refl;
        pages = IsLeft-same s.pages;
      },
      fresh_pages,
      omega arith,
    ),
  )

  pub Costs-change :
      (g : Memory → Memory) (a v : ℕ)
      → ((f : Memory) → g f ≡ update f a v)
      → fresh a ≡ true
      → Costs 0 (change g)
  Costs-change g a v e h s = rw (e s.memory) (Costs-put a v h s)

  pub Costs-loop :
      (c : ℕ) (body : ℕ → Cmd Store (Unit {0}))
      → ((i : ℕ) → i < 512 → Costs c (body i))
      → (n first : ℕ) → first + n ≤ 512
      → Costs (n * c) (for_steps n first body)
  unfolding for_steps
  Costs-loop c body h zero first low s more fresh_pages enough =
      Costs-pure s more fresh_pages (omega arith)
  Costs-loop c body h (suc n) first low s more fresh_pages enough =
      Costs-then c (n * c) (body first) (for_steps n (first + 1) body) (h first (omega arith))
        (Costs-loop c body h n (first + 1) (omega arith)) s more fresh_pages (omega arith)

  not_cleared :
      (a x : ℕ) (f : Memory)
      → IsFreshPage a
      → fresh x ≡ false
      → (if within a 4096 x then 0 else f x) ≡ f x
  not_cleared a x f h out = elim (Bool-cases (within a 4096 x)) [
    | inl inside ↦ let e = h x inside in absurd (cc)
    | inr outside ↦ rw outside
  ]

  module _ (k : PageKernel) (storing : IsStoring k) where
    draw_page-Kept :
        (a : ℕ) (rest : List ℕ) (s : Store)
        → IsFreshPage a
        → Kept
            (record s { pages = a ∷ rest })
            (record s { memory = k.clear_page a s.memory; pages = rest })
    draw_page-Kept a rest s h = record {
      memory = λ x out. storing.clear_page_clears a s.memory x ∙ not_cleared a x s.memory h out;
      cr3 = refl;
      pgd_addr_cp = refl;
      pages = IsLeft-rest a rest rest (IsLeft-same rest);
    }

    -- The pages of the coming calls, from any store.
    pub draw_page-Costs :
        (pages : List ℕ) (s : Store) (more : ℕ)
        → AllFresh pages
        → 1 + more ≤ good pages
        → Returns (draw_page k.clear_page pages s) λ a u.
          (a ≢ 0)
          × IsFreshPage a
          × Kept (record s { pages = pages }) u
          × AllFresh u.pages
          × (more ≤ good u.pages)
    unfolding draw_page
    draw_page-Costs [] s more fresh_pages enough = absurd (omega arith)
    draw_page-Costs (a ∷ rest) s more fresh_pages enough = elim (Bool-cases (a == 0)) [
      | inl null ↦ rw null (
          let (b, u, run, q) =
            draw_page-Costs rest (record s { trace = page_is_null ∷ s.trace }) more fresh_pages.1
              (ground arith) in
          let kept : Kept (record s { pages = a ∷ rest }) u = record {
            memory = q.2.memory;
            cr3 = q.2.cr3;
            pgd_addr_cp = q.2.pgd_addr_cp;
            pages = IsLeft-rest a rest u.pages q.2.pages;
          } in
          (b, u, run, (q.0, q.1, kept, q.3, q.4)))
      | inr given ↦
          let page = fresh_pages.0 (ground arith) in
          rw given (
            a,
            _,
            refl,
            (ground arith, page, draw_page-Kept a rest s page, fresh_pages.1, ground arith),
          )
    ]

    pub Costs-page {κ} :
        {A : Type κ} (c : ℕ) (f : ℕ → Cmd Store A)
        → ((a : ℕ) → a ≢ 0 → IsFreshPage a → Costs c (f a))
        → Costs (1 + c) (take_page k >>= f)
    Costs-page c f h s more fresh_pages enough =
        Returns-and_then (draw_page-Costs s.pages s (c + more) fresh_pages (omega arith)) λ a t p.
          let (v, u, run, q) = h a p.0 p.1 t more p.3 p.4 in
          (v, u, run, (Kept-trans s t u p.2 q.0, q.1, q.2))
