-- ===== src/Worker/Threads/Alert.antt =====
-- p2/code/thread-worker.c: how the end of a thread wakes those that joined it.
use mathlib.Core.List.{Mem, mem-cons_self, mem-cons_of_mem}
use cs416_os.Prelude.{
  ℕ, ◌≡◌, ◌≢◌, refl, sym, ap, ◌∙◌, inl, inr, ◌⊎◌, none, some, List, [], ◌∷◌, arith, All,
}
use native.Mathlib.Decide.{ℕ_discrete}
use cs416_os.Worker.Tcb.{Tcb, update, nonexistent_thread}
use cs416_os.Worker.World.{World, write_result}
use cs416_os.Worker.Threads.{alert_one, alert_each, alert_waiting_threads}

-- A tcb after some threads have been woken: as it was, or no longer waiting for the ended thread.
abbrev pub Woken : Tcb → Tcb → ℕ → Type 0
Woken t t' ended =
    (t' ≡ t) ⊎ ((t.join_tid ≡ ended) × (t' ≡ record t { join_tid = nonexistent_thread }))

-- A tcb that waits for the thread and gave NULL as the address of the value.
abbrev pub IsNullWaiter : Tcb → ℕ → Type 0
IsNullWaiter t ended = (t.join_tid ≡ ended) × (t.join_retval ≡ 0)

data OneAlerted (w : World) (p ended value : ℕ) : Type 0 where
  one_fault :
      IsNullWaiter (w.store p) ended
      → value ≢ 0
      → alert_one w p ended value ≡ none
      → OneAlerted w p ended value
  one_woken :
      (w' : World)
      → alert_one w p ended value ≡ some w'
      → ((q : ℕ) → Woken (w.store q) (w'.store q) ended)
      → ((w'.store p).join_tid ≢ ended)
      → OneAlerted w p ended value

alert_one_lem :
    (w : World) (p ended value : ℕ) → ended ≢ nonexistent_thread → OneAlerted w p ended value
unfolding alert_one
alert_one_lem w p ended value ne = elim (ℕ_discrete (w.store p).join_tid ended) [
  | no other ↦ one_woken w (ground arith) (λ q. inl refl) other
  | yes e ↦ elim (ℕ_discrete value 0) [
    | yes z ↦
        one_woken
          (record w {
            store = update w.store p (record (w.store p) { join_tid = nonexistent_thread });
          })
          (ground arith) (λ q. ground arith) (ground arith)
    | no nz ↦ elim (ℕ_discrete (w.store p).join_retval 0) [
      | yes null ↦ one_fault (e, null) nz (ground arith)
      | no target ↦
          one_woken
            (write_result
              (record w {
                store = update w.store p (record (w.store p) { join_tid = nonexistent_thread });
              })
              (w.store p).join_retval value)
            (ground arith) (λ q. ground arith) (ground arith)
    ]
  ]
]

-- The two outcomes of waking the threads of a list.
pub data Alerted (w : World) (ps : List ℕ) (ended value : ℕ) : Type 0 where
  faults :
      (p : ℕ)
      → Mem p ps
      → IsNullWaiter (w.store p) ended
      → value ≢ 0
      → alert_each w ps ended value ≡ none
      → Alerted w ps ended value
  woken :
      (w' : World)
      → alert_each w ps ended value ≡ some w'
      → All (λ q. (w'.store q).join_tid ≢ ended) ps
      → ((q : ℕ) → Woken (w.store q) (w'.store q) ended)
      → Alerted w ps ended value

Woken-trans :
    (t t₁ t₂ : Tcb) (ended : ℕ)
    → ended ≢ nonexistent_thread
    → Woken t t₁ ended
    → Woken t₁ t₂ ended
    → Woken t t₂ ended
Woken-trans t t₁ t₂ ended ne (inl a) (inl b) = inl (b ∙ a)
Woken-trans t t₁ t₂ ended ne (inl a) (inr (e, f)) = inr (rw a at e, rw a at f)
Woken-trans t t₁ t₂ ended ne (inr (e, f)) (inl b) = inr (e, b ∙ f)
Woken-trans t t₁ t₂ ended ne (inr (e, f)) (inr (e₂, f₂)) =
    absurd (ne (sym (ap (λ u. u.join_tid) (sym f) ∙ e₂)))

IsNullWaiter-before :
    (t t₁ : Tcb) (ended : ℕ) → Woken t t₁ ended → IsNullWaiter t₁ ended → IsNullWaiter t ended
IsNullWaiter-before t t₁ ended (inl a) k = rw a at k
IsNullWaiter-before t t₁ ended (inr (e, f)) k = (e, ap (λ u. u.join_retval) (sym f) ∙ k.1)

stays-Woken : (t t₁ : Tcb) (ended : ℕ) → t.join_tid ≢ ended → Woken t t₁ ended → t₁.join_tid ≢ ended
stays-Woken t t₁ ended ne (inl a) e = ne (sym (ap (λ u. u.join_tid) a) ∙ e)
stays-Woken t t₁ ended ne (inr (e, f)) k = ne e

alert_each_lem :
    (w : World) (ps : List ℕ) (ended value : ℕ)
    → ended ≢ nonexistent_thread
    → Alerted w ps ended value
unfolding alert_each
alert_each_lem w [] ended value ne = woken w refl tt (λ q. inl refl)
alert_each_lem w (p ∷ ps) ended value ne = elim (alert_one_lem w p ended value ne) [
  | one_fault k nz e ↦ faults p mem-cons_self k nz (ground (arith, e))
  | one_woken w₁ e ws np ↦ elim (alert_each_lem w₁ ps ended value ne) [
    | faults q m k nz e₂ ↦
        faults q (mem-cons_of_mem _ m) (IsNullWaiter-before (w.store q) (w₁.store q) ended (ws q) k)
          nz (ground (arith, e, e₂))
    | woken w₂ e₂ all ws₂ ↦
        woken w₂ (ground (arith, e, e₂))
          (stays-Woken (w₁.store p) (w₂.store p) ended np (ws₂ p), all)
          (λ q. Woken-trans (w.store q) (w₁.store q) (w₂.store q) ended ne (ws q) (ws₂ q))
  ]
]

-- When a thread whose number is not 0 has ended, either some thread of the run queue joined it with
-- NULL for the value's address while there is a value, and the call writes through NULL; or the
-- call succeeds, no thread of the run queue waits for the ended one any more, and every tcb is as
-- it was, but for those that waited for it, which wait for none.
pub alert_waiting_threads_lem :
    (w : World) (ended value : ℕ)
    → ended ≢ nonexistent_thread
    → ((p : ℕ) × Mem p w.tcbs.nodes
        × IsNullWaiter (w.store p) ended
        × (value ≢ 0)
        × (alert_waiting_threads w ended value ≡ none))
      ⊎ ((w' : World) × (alert_waiting_threads w ended value ≡ some w')
          × All (λ q. (w'.store q).join_tid ≢ ended) w.tcbs.nodes
          × ((q : ℕ) → Woken (w.store q) (w'.store q) ended))
unfolding alert_waiting_threads
alert_waiting_threads_lem w ended value ne = elim (alert_each_lem w w.tcbs.nodes ended value ne) [
  | faults p m k nz e ↦ inl (p, m, k, nz, e)
  | woken w' e all ws ↦ inr (w', e, all, ws)
]
