-- ===== src/Pkg/Dnf/Laws.antt =====
-- What `run_transaction` and `query` do with what libdnf gives.
use agent_resources.Prelude.{
  ℕ, suc, ◌≡◌, refl, sym, ap, ◌∙◌, List, [], ◌∷◌, ◌++◌, Bool, true, false, if◌then◌else◌,
  Bool-cases, inl, inr, ◌⊎◌,
}
use mathlib.Core.List.{append_assoc, append-nil}
use agent_resources.Pkg.Dnf.{
  TransactionPackage, Dnf, DnfCall, add, run, Transaction, query_loop, query, run_downloaded,
  download_loop, run_transaction,
}

-- The packages whose action is inbound.
abbrev pub inbound_of : List TransactionPackage → List ℕ
inbound_of [] = []
inbound_of (p ∷ packages) =
    let rest = inbound_of packages in if p.inbound then p.get_package ∷ rest else rest

-- The packages that are added to the downloader.
abbrev pub added_of : List DnfCall → List ℕ
added_of [] = []
added_of (add p ∷ calls) = p ∷ added_of calls
added_of (_ ∷ calls) = added_of calls

-- How often the transaction is run.
abbrev pub runs : List DnfCall → ℕ
runs [] = 0
runs (run ∷ calls) = suc (runs calls)
runs (_ ∷ calls) = runs calls

-- With `added` before, and `packages` to be added.
pub record Downloads (downloads : List ℕ → Bool) (added packages : List ℕ) (t : Transaction)
    : Type 0 where
  pub rest : List ℕ
  pub in_order : packages ≡ added_of t.calls ++ rest
  pub runs_once : runs t.calls ≡ (if t.thrown then 0 else 1)
  pub all_downloaded :
      t.thrown ≡ false → (added_of t.calls ≡ packages) × (downloads (added ++ packages) ≡ true)
  pub why_thrown : t.thrown ≡ true → downloads (added ++ added_of t.calls) ≡ false

module _ (downloads : List ℕ → Bool) where
  downloaded-Downloads :
      (added : List ℕ) → Downloads downloads added [] (run_downloaded downloads added)
  unfolding run_downloaded
  downloaded-Downloads added = elim (Bool-cases (downloads added)) [
    | inl d ↦ rw d (record {
      rest = [];
      in_order = refl;
      runs_once = refl;
      all_downloaded = λ _. (refl, rw (append-nil added) d);
      why_thrown = λ e. cc;
    })
    | inr d ↦ rw d (record {
      rest = [];
      in_order = refl;
      runs_once = refl;
      all_downloaded = λ e. cc;
      why_thrown = λ _. rw (append-nil added) d;
    })
  ]

  loop-Downloads :
      (packages : List TransactionPackage) (added : List ℕ)
      → Downloads downloads added (inbound_of packages) (download_loop downloads packages added)
  unfolding download_loop
  loop-Downloads [] added = downloaded-Downloads added
  loop-Downloads (p ∷ packages) added = elim (Bool-cases p.inbound) [
    | inr out ↦ rw (out) (loop-Downloads packages added)
    | inl is_in ↦ rw (is_in) (
        let added' = added ++ p.get_package ∷ [] in
        elim (Bool-cases (downloads added')) [
          | inr fails ↦ rw fails (record {
            rest = inbound_of packages;
            in_order = refl;
            runs_once = refl;
            all_downloaded = λ e. cc;
            why_thrown = λ _. fails;
          })
          | inl d ↦
              let h = loop-Downloads packages added' in
              rw d (record {
                rest = h.rest;
                in_order = ap (λ l. p.get_package ∷ l) h.in_order;
                runs_once = h.runs_once;
                all_downloaded = λ e. (
                  ap (λ l. p.get_package ∷ l) (h.all_downloaded e).0,
                  rw (append_assoc added (p.get_package ∷ []) (inbound_of packages)) at
                      (h.all_downloaded e).1,
                );
                why_thrown =
                    λ e. rw (append_assoc added (p.get_package ∷ []) _) at (h.why_thrown e);
              })
        ])
  ]

query_append : (found packages : List (List ℕ)) → query_loop found packages ≡ packages ++ found
unfolding query_loop
query_append [] packages = sym (append-nil packages)
query_append (n ∷ found) packages =
    query_append found (packages ++ n ∷ []) ∙ append_assoc packages (n ∷ []) found

-- `query` returns the names of all packages that the query has, in its order.
pub query_lem : (dnf : Dnf) (name : List ℕ) → query dnf name ≡ dnf.matching name
unfolding query
query_lem dnf name = query_append (dnf.matching name) []

-- `run_transaction` adds packages to the downloader in the order of the transaction, those with an
-- inbound action alone, and it runs the transaction at most once. Where no exception is thrown it
-- has added all of them, the download of all of them has succeeded, and it runs the transaction.
-- Where one is thrown it does not run it, and the download of what it had added has failed.
pub run_transaction_lem :
    (dnf : Dnf) (name : List ℕ)
    → let t = run_transaction dnf name in
      let packages = inbound_of (dnf.resolve name) in
      (rest : List ℕ) × (packages ≡ added_of t.calls ++ rest)
      × (runs t.calls ≡ (if t.thrown then 0 else 1))
      × (((t.thrown ≡ false) × (added_of t.calls ≡ packages) × (dnf.downloads packages ≡ true))
          ⊎ ((t.thrown ≡ true) × (dnf.downloads (added_of t.calls) ≡ false)))
unfolding run_transaction
run_transaction_lem dnf name =
    let h = loop-Downloads dnf.downloads (dnf.resolve name) [] in
    let t = download_loop dnf.downloads (dnf.resolve name) [] in
    (
      h.rest,
      h.in_order,
      h.runs_once,
      elim (Bool-cases t.thrown) [
        | inl e ↦ inr (e, h.why_thrown e)
        | inr e ↦ inl (e, (h.all_downloaded e).0, (h.all_downloaded e).1)
      ],
    )
