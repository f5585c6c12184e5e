-- ===== src/Invoices/Overdue.antt =====
-- The search for overdue invoices.
use mitra.Prelude.{
  All-select, select_passes, ℕ, ◌≡◌, ap, sym, ◌∙◌, true, false, List, [], ◌∷◌, any-false-All,
  find-modify_ne, select, modify, All, All-both, All-weaken, ◌==◌, Bool-cases, inl, inr, arith,
}
use mitra.Database.{ok, ◌>>=◌}
use mitra.Invoices.Types.{
  Invoice, status_eq, timeout, is_local, check_consistency, can_change_status,
}
use mitra.Invoices.Queries.{
  by_id, passes_checks, with_status, set_invoice_status, get_remote_invoices_by_status,
}
use mitra.Invoices.Spec.{advance, set_invoice_status-refines}
use mitra.Invoices.Payments.{IsStored, change_found}
use mitra.Invoices.Expiry.{is_overdue, time_out, check_open_remote_invoices}
use mitra.Schema.{Tables}
use mitra.Invoices.Hits.{
  IsDistinct, is_open_remote, hit_by, modify_same, modify_none, modify_later, modify_early,
  must_time_out, All-hit, select-IsDistinct, IsPending,
}

-- An open remote invoice can time out.
advance_timeout :
    (now : ℕ) (i : Invoice)
    → check_consistency i ≡ ok tt
    → passes_checks i ≡ true
    → is_open_remote i ≡ true
    → advance timeout now i ≡ ok (with_status timeout now i)
unfolding advance can_change_status check_consistency is_local status_eq
advance_timeout now i c p o = ground arith

set_timeout :
    (t : Tables) (i : Invoice)
    → IsStored i.id i t
    → is_open_remote i ≡ true
    → set_invoice_status i.id timeout t ≡ (
      ok (with_status timeout t.clock i),
      record t { invoice = modify (by_id i.id) (with_status timeout t.clock) t.invoice },
    )
set_timeout t i s o = rw (set_invoice_status-refines i.id timeout t) (
    change_found i.id (with_status timeout t.clock) (advance timeout t.clock) t i _ s.found
      (advance_timeout t.clock i s.consistent s.checked o))

IsPending-later :
    (t : Tables) (i j : Invoice)
    → (j.id == i.id) ≡ false
    → IsPending t j
    → IsPending
        (record t { invoice = modify (by_id i.id) (with_status timeout t.clock) t.invoice })
        j
IsPending-later t i j apart h = record {
  stored = record {
    found =
        find-modify_ne (by_id i.id) (by_id j.id) (with_status timeout t.clock)
          (λ x e. (ground arith, ground arith)) t.invoice
        ∙ h.stored.found;
    consistent = h.stored.consistent;
    checked = h.stored.checked;
  };
  is_open = h.is_open;
}

abbrev pub after : Tables → List Invoice → Tables
after t is = record t {
  invoice = modify (hit_by t.clock is) (with_status timeout t.clock) t.invoice;
}

time_out_lem :
    (is : List Invoice) (t : Tables)
    → IsDistinct is
    → All (IsPending t) is
    → time_out is t ≡ (ok tt, after t is)
unfolding time_out ◌>>=◌
time_out_lem [] t d h =
    ap (λ xs. (ok tt, record t { invoice = xs }))
      (sym (modify_none (with_status timeout t.clock) t.invoice))
time_out_lem (i ∷ is) t d h = elim (Bool-cases (is_overdue t.clock i)) [
  | inl late ↦
      let rest : All
          (IsPending
            (record t { invoice = modify (by_id i.id) (with_status timeout t.clock) t.invoice }))
          is =
        All-weaken (λ (j : Invoice). ((j.id == i.id) ≡ false) × IsPending t j) (IsPending _)
          (λ j (apart, p). IsPending-later t i j apart p) is
          (All-both (λ (j : Invoice). (j.id == i.id) ≡ false) (IsPending t) is
            (any-false-All (by_id i.id) is d.0) h.1) in
      rw (late, set_timeout t i h.0.stored h.0.is_open)
        (time_out_lem is
            (record t { invoice = modify (by_id i.id) (with_status timeout t.clock) t.invoice }) d.1
            rest
          ∙ ap (λ xs. (ok tt, record t { invoice = xs }))
              (modify_later t.clock i is t.invoice late))
  | inr early ↦ rw early (
      time_out_lem is t d.1 h.1
      ∙ ap (λ xs. (ok tt, record t { invoice = xs })) (modify_early t.clock i is t.invoice early))
]

-- If each stored invoice is consistent, passes the constraints of its table and is found by its identifier,
-- and no identifier occurs twice, the search for overdue invoices succeeds: the open remote invoices
-- whose time is over time out, and all else is kept.
pub check_open_remote_invoices_lem :
    (t : Tables)
    → IsDistinct t.invoice
    → All (λ i. IsStored i.id i t) t.invoice
    → check_open_remote_invoices t ≡ (
      ok tt,
      record t { invoice = modify (must_time_out t.clock) (with_status timeout t.clock) t.invoice },
    )
unfolding check_open_remote_invoices get_remote_invoices_by_status ◌>>=◌
check_open_remote_invoices_lem t d h =
    time_out_lem (select is_open_remote t.invoice) t (select-IsDistinct t.invoice d) (
      All-weaken (λ i. IsStored i.id i t × (is_open_remote i ≡ true)) (IsPending t)
        (λ i (s, o). record { stored = s; is_open = o }) (select is_open_remote t.invoice)
        (All-both (λ i. IsStored i.id i t) (λ i. is_open_remote i ≡ true)
          (select is_open_remote t.invoice)
          (All-select (λ i. IsStored i.id i t) is_open_remote t.invoice h)
          (select_passes is_open_remote t.invoice)))
    ∙ ap (λ xs. (ok tt, record t { invoice = xs }))
        (modify_same (hit_by t.clock (select is_open_remote t.invoice)) (must_time_out t.clock)
          (with_status timeout t.clock) t.invoice (All-hit t.clock t.invoice d))
