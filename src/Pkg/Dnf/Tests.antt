-- ===== src/Pkg/Dnf/Tests.antt =====
-- Runs of the functions on libdnf, and the instances of their theorems.
use agent_resources.Prelude.{
  ℕ, ◌≡◌, refl, List, [], ◌∷◌, ◌++◌, true, false, if◌then◌else◌, ltb, length, ◌⊎◌,
}
use agent_resources.Text.{codes}
use agent_resources.Pkg.Dnf.{
  Dnf, add, download, run_downloaded, download_loop, query, query_loop, run_transaction,
}
use agent_resources.Pkg.Dnf.Laws.{added_of, runs, inbound_of, run_transaction_lem}

-- Three packages, one of which is removed; the download of more than one fails.
abbrev dnf : Dnf
dnf = record {
  matching = λ name. name ∷ codes "tmux-3" ∷ [];
  resolve = λ name.
      record { get_package = 1; inbound = true }
      ∷ record { get_package = 2; inbound = false }
      ∷ record { get_package = 3; inbound = true }
      ∷ [];
  downloads = λ added. ltb (length added) 2;
}

query_runs : query dnf (codes "tmux-2") ≡ codes "tmux-2" ∷ codes "tmux-3" ∷ []
unfolding query query_loop
query_runs = refl

throws_runs :
    run_transaction dnf (codes "tmux")
    ≡ record { calls = add 1 ∷ download ∷ add 3 ∷ download ∷ []; thrown = true }
unfolding run_transaction download_loop run_downloaded
throws_runs = refl

run_transaction_lem_example :
    let t = run_transaction dnf (codes "tmux") in
    let packages = inbound_of (dnf.resolve (codes "tmux")) in
    (rest : List ℕ) × (packages ≡ added_of t.calls ++ rest)
    × (runs t.calls ≡ (if t.thrown then 0 else 1))
    × (((t.thrown ≡ false) × (added_of t.calls ≡ packages) × (dnf.downloads packages ≡ true))
        ⊎ ((t.thrown ≡ true) × (dnf.downloads (added_of t.calls) ≡ false)))
run_transaction_lem_example = run_transaction_lem dnf (codes "tmux")
