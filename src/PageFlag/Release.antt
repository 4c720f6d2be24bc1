-- ===== src/PageFlag/Release.antt =====
-- `new_clean_page_modify1`: six releases are reported, of random page numbers; a draw is used if
-- the number that it makes is above 1000. Each draw fills four of the eight bytes of randNum[i].
pub mod Ends
use hyper_mi.Base.{
  ℕ, ◌+◌, ◌*◌, ◌/◌, ◌%◌, ◌^◌, List, [], ◌∷◌, ltb, ◌==◌, if◌then◌else◌, Cmd, ok, starved,
}
use hyper_mi.PageFlag.Table.{Table, Host, release_banner, released}

-- randNum[i] after a draw.
unfoldable pub drawn : Host → ℕ → ℕ → ℕ
drawn host i r = host.rand_num i / 2 ^ 32 * 2 ^ 32 + r % 2 ^ 32

unfoldable pub report : ℕ → ℕ → Table → Table
report i v t =
    if i == 0
    then record t { log = released (v % 50000) ∷ release_banner ∷ t.log }
    else record t { log = released (v % 50000) ∷ t.log }

-- The loop at `i`, with the draws that are still to come.
unfoldable pub release_loop : Host → List ℕ → ℕ → Cmd Table (Unit {0})
unfolding drawn report
release_loop host [] i t = if i == 6 then ok tt (record t { random = [] }) else starved
release_loop host (r ∷ rs) i t =
    let v = drawn host i r in
    let used = release_loop host rs (i + 1) (report i v t) in
    let again = release_loop host rs i t in
    if i == 6 then ok tt (record t { random = r ∷ rs }) else if ltb 1000 v then used else again

unfoldable pub new_clean_page_modify1 : Host → Cmd Table (Unit {0})
unfolding release_loop
new_clean_page_modify1 host t = release_loop host t.random 0 t
