-- ===== src/Threads/Queues.antt =====
-- The queue of `Thread::AddData` and `Thread::Work` of YServerCore/Thread.cpp.
use yserver_core.Common.{ℕ, ◌≡◌, refl, sym, ap, ◌∙◌, List, [], ◌∷◌, ◌++◌, append_assoc, append-nil}
use yserver_core.Threads.{Thread, new_data, add_data, work}

-- The calls of producers and workers, in whatever order the mutex lets them in.
pub data Call : Type 0 where
  adds : ℕ → Call
  works : Call

abbrev pub call : Call → Thread → Thread
call (adds num) t = add_data (new_data num) t
call works t = work t

abbrev pub calls : List Call → Thread → Thread
calls [] t = t
calls (c ∷ cs) t = calls cs (call c t)

-- What was added, in order.
abbrev pub added_by : List Call → List ℕ
added_by [] = []
added_by (adds num ∷ cs) = num ∷ added_by cs
added_by (works ∷ cs) = added_by cs

work_keeps : (t : Thread) → (work t).printed ++ (work t).data_q ≡ t.printed ++ t.data_q
unfolding work
work_keeps t = kept t.data_q refl
  where
    kept : (q : List ℕ) → t.data_q ≡ q → (work t).printed ++ (work t).data_q ≡ t.printed ++ t.data_q
    kept [] e = rw e refl
    kept (num ∷ rest) e = rw e (append_assoc t.printed (num ∷ []) rest)

add_data_keeps :
    (num : ℕ) (t : Thread)
    → (add_data (new_data num) t).printed ++ (add_data (new_data num) t).data_q
      ≡ (t.printed ++ t.data_q) ++ num ∷ []
unfolding add_data new_data
add_data_keeps num t = sym (append_assoc t.printed t.data_q (num ∷ []))

-- What the workers have printed, and then what waits, is what was there before and then what was
-- added, in order.
pub printed-data_q :
    (cs : List Call) (t : Thread)
    → (calls cs t).printed ++ (calls cs t).data_q ≡ (t.printed ++ t.data_q) ++ added_by cs
printed-data_q [] t = sym (append-nil (t.printed ++ t.data_q))
printed-data_q (adds num ∷ cs) t =
    printed-data_q cs (add_data (new_data num) t)
    ∙ ap (λ k. k ++ added_by cs) (add_data_keeps num t)
    ∙ append_assoc (t.printed ++ t.data_q) (num ∷ []) (added_by cs)
printed-data_q (works ∷ cs) t =
    printed-data_q cs (work t) ∙ ap (λ k. k ++ added_by cs) (work_keeps t)
