-- ===== src/Pkg/Dnf.antt =====
-- libpkg/distro/fedora_dnf.cc: packages by libdnf.
--
-- What libdnf gives is a `Dnf`. A call of `download` that fails throws an exception, which
-- `run_transaction` does not catch, so that its later calls are not made.
pub mod Laws
mod Tests
use agent_resources.Prelude.{ℕ, List, [], ◌∷◌, ◌++◌, Bool, true, false, if◌then◌else◌}
use agent_resources.Text.{codes}

-- A package of a transaction, and whether its action is inbound.
pub record TransactionPackage : Type 0 where
  pub get_package : ℕ
  pub inbound : Bool

-- `matching name` are the `get_nevra` texts of the packages that a query filtered by the name has, in
-- the query's order. `resolve name` are the packages of the transaction that a goal with
-- `add_rpm_install name` resolves to. `downloads added` says whether `download` returns when these
-- packages have been added to the downloader.
pub record Dnf : Type 0 where
  pub matching : List ℕ → List (List ℕ)
  pub resolve : List ℕ → List TransactionPackage
  pub downloads : List ℕ → Bool

-- The calls that are made on the library's objects.
pub data DnfCall : Type 0 where
  base_setup create_repos_from_system_configuration load_repos : DnfCall
  add : ℕ → DnfCall
  download set_callbacks run : DnfCall
  set_description : List ℕ → DnfCall

abbrev pub setup : List DnfCall
setup = base_setup ∷ create_repos_from_system_configuration ∷ load_repos ∷ []

-- The loop that pushes what a query has to `packages`.
pub query_loop : List (List ℕ) → List (List ℕ) → List (List ℕ)
query_loop [] packages = packages
query_loop (nevra ∷ found) packages = query_loop found (packages ++ nevra ∷ [])

pub query : Dnf → List ℕ → List (List ℕ)
query dnf package_name = query_loop (dnf.matching package_name) []

-- The calls that are made, and whether the last of them threw.
pub record Transaction : Type 0 where
  pub calls : List DnfCall
  pub thrown : Bool

abbrev pub behind : List DnfCall → Transaction → Transaction
behind calls t = record t { calls = calls ++ t.calls }

module _ (downloads : List ℕ → Bool) where
  -- Behind the loop.
  pub run_downloaded : List ℕ → Transaction
  run_downloaded added =
      if downloads added
      then record {
        calls =
            download
            ∷ set_callbacks
            ∷ set_description (codes "installing a package for the first time")
            ∷ run
            ∷ [];
        thrown = false;
      }
      else record { calls = download ∷ []; thrown = true }

  -- The loop, with the packages that have been added.
  pub download_loop : List TransactionPackage → List ℕ → Transaction
  download_loop [] added = run_downloaded added
  download_loop (tspkg ∷ packages) added =
      let added' = added ++ tspkg.get_package ∷ [] in
      let passed = download_loop packages added in
      let rest = download_loop packages added' in
      if tspkg.inbound
      then if downloads added'
        then behind (add tspkg.get_package ∷ download ∷ []) rest
        else record { calls = add tspkg.get_package ∷ download ∷ []; thrown = true }
      else passed

pub run_transaction : Dnf → List ℕ → Transaction
run_transaction dnf package_name = download_loop dnf.downloads (dnf.resolve package_name) []
