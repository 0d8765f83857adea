-- ===== src/Skiplist/Find.antt =====
-- The two loops of `skiplist_delete` of src/skiplist.h at one level: the search, and the run
-- through the nodes of equal score.
use libep.Base.{
  ℕ, zero, suc, ◌<◌, ◌≡◌, ◌≢◌, refl, sym, ap, Bool, none, some, List, [], ◌∷◌, ◌++◌, arith, ◌==◌,
  ==_self, ==_of_ne, ◌∉◌, length, last, Bool-cases, inl, inr, ok,
}
use libep.ListHead.{Ptr, null}
use libep.Skiplist.Defs.{Nodes, walk, find}
use libep.Skiplist.Chain.{Chain}
use libep.Skiplist.Entries.{Entry, addrs, Scored}
use libep.Skiplist.Walk.{get_forward-ok, get_score-ok, Stops}

abbrev pub Equal : ℕ → List Entry → Type 0
Equal s [] = Unit
Equal s (e ∷ es) = (e.score ≡ s) × Equal s es

-- The search loop passes `pre` and stops in front of `post`.
pub record Stopped (test : ℕ → Bool) (k i : ℕ) (m : Nodes) (x : Ptr) (es : List Entry)
    : Type 0 where
  pub pre : List Entry
  pub post : List Entry
  pub whole : es ≡ pre ++ post
  pub fails : Stops test post
  pub result : walk test k i x m ≡ ok (last x (addrs pre)) m

-- Whatever the scores, the loop stops within `es` if what follows `es` fails the test.
pub walk-Stopped :
    (test : ℕ → Bool) (k i : ℕ) (m : Nodes) (x : Ptr) (es hi : List Entry)
    → Chain (m.forward i) x (addrs es ++ addrs hi)
    → null ∉ addrs es
    → null ∉ addrs hi
    → Scored m es
    → Scored m hi
    → Stops test hi
    → length es < k
    → Stopped test k i m x es
unfolding walk
walk-Stopped test zero i m x es hi c ne nh se sh t fuel = absurd (omega arith)
walk-Stopped test (suc k) i m x [] [] c ne nh se sh t fuel = record {
  pre = [];
  post = [];
  whole = refl;
  fails = tt;
  result = rw (get_forward-ok m i x c) refl;
}
walk-Stopped test (suc k) i m x [] (e ∷ hi) c ne nh se sh t fuel = record {
  pre = [];
  post = [];
  whole = refl;
  fails = tt;
  result =
      rw
        (
          get_forward-ok m i x c.0,
          ==_of_ne {a = e.addr} {b = null} (λ f. nh.0 (sym f)),
          get_score-ok m e.addr sh.0,
          t,
        )
        refl;
}
walk-Stopped test (suc k) i m x (e ∷ es) hi c ne nh se sh t fuel =
    elim (Bool-cases (test e.score)) [
      | inl passes ↦
          let r = walk-Stopped test k i m e.addr es hi c.1 ne.1 nh se.1 sh t (omega arith) in
          record {
            pre = e ∷ r.pre;
            post = r.post;
            whole = ap (λ l. e ∷ l) r.whole;
            fails = r.fails;
            result =
                rw
                  (
                    get_forward-ok m i x c.0,
                    ==_of_ne {a = e.addr} {b = null} (λ f. ne.0 (sym f)),
                    get_score-ok m e.addr se.0,
                    passes,
                  )
                  r.result;
          }
      | inr stops ↦ record {
        pre = [];
        post = e ∷ es;
        whole = refl;
        fails = stops;
        result =
            rw
              (
                get_forward-ok m i x c.0,
                ==_of_ne {a = e.addr} {b = null} (λ f. ne.0 (sym f)),
                get_score-ok m e.addr se.0,
                stops,
              )
              refl;
      }
    ]

-- A node of the level is found behind nodes of its own score.
pub find-some :
    (node : Ptr) (s k i : ℕ) (m : Nodes) (y : Ptr) (es : List Entry) (zs : List Ptr)
    → Chain (m.forward i) y (addrs es ++ node ∷ zs)
    → null ∉ addrs es
    → null ≢ node
    → node ∉ addrs es
    → Scored m es
    → m.score node ≡ some s
    → Equal s es
    → length es < k
    → find node s k i y m ≡ ok (some (last y (addrs es))) m
unfolding find
find-some node s zero i m y es zs c ne nn out se sn eq fuel = absurd (omega arith)
find-some node s (suc k) i m y [] zs c ne nn out se sn eq fuel =
    rw
      (
        get_forward-ok m i y c.0,
        ==_of_ne {a = node} {b = null} (λ f. nn (sym f)),
        get_score-ok m node sn,
        ==_self s,
        ==_self node,
      )
      refl
find-some node s (suc k) i m y (e ∷ es) zs c ne nn out se sn eq fuel =
    rw
      (
        get_forward-ok m i y c.0,
        ==_of_ne {a = e.addr} {b = null} (λ f. ne.0 (sym f)),
        get_score-ok m e.addr se.0,
        eq.0,
        ==_self s,
        ==_of_ne {a = e.addr} {b = node} (λ f. out.0 (sym f)),
      )
      (find-some node s k i m e.addr es zs c.1 ne.1 nn out.1 se.1 sn eq.1 (omega arith))

-- A node that does not stand at the level is not found.
pub find-none :
    (node : Ptr) (s k i : ℕ) (m : Nodes) (y : Ptr) (es : List Entry)
    → Chain (m.forward i) y (addrs es)
    → null ∉ addrs es
    → node ∉ addrs es
    → Scored m es
    → length es < k
    → find node s k i y m ≡ ok none m
unfolding find
find-none node s zero i m y es c ne out se fuel = absurd (omega arith)
find-none node s (suc k) i m y [] c ne out se fuel = rw (get_forward-ok m i y c) refl
find-none node s (suc k) i m y (e ∷ es) c ne out se fuel = elim (Bool-cases (e.score == s)) [
  | inl same ↦
      rw
        (
          get_forward-ok m i y c.0,
          ==_of_ne {a = e.addr} {b = null} (λ f. ne.0 (sym f)),
          get_score-ok m e.addr se.0,
          same,
          ==_of_ne {a = e.addr} {b = node} (λ f. out.0 (sym f)),
        )
        (find-none node s k i m e.addr es c.1 ne.1 out.1 se.1 (omega arith))
  | inr differs ↦
      rw
        (
          get_forward-ok m i y c.0,
          ==_of_ne {a = e.addr} {b = null} (λ f. ne.0 (sym f)),
          get_score-ok m e.addr se.0,
          differs,
        )
        refl
]
