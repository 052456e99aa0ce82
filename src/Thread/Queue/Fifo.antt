-- ===== src/Thread/Queue/Fifo.antt =====
-- The linked thread lists of src/modified/sys/thread.c are queues: what a list holds, as a list.
use unix_like_operating_syst.Base.{
  ℕ, ◌≡◌, ◌≢◌, refl, sym, ap, ◌∙◌, Option, none, some, List, [], ◌∷◌, ◌++◌, All, put, eq→==, ne→==,
  some_inj, append-nil,
}
use mathlib.Core.Path.{subst}
use unix_like_operating_syst.Thread.Queue.{
  Links, ThreadList, tlinsert, unlinked, tlremove, tlappend,
}

abbrev pub first : List ℕ → Option ℕ
first [] = none
first (t ∷ _) = some t

abbrev pub last : List ℕ → Option ℕ
last [] = none
last (t ∷ []) = some t
last (_ ∷ u ∷ ts) = last (u ∷ ts)

abbrev pub Apart : ℕ → List ℕ → Type 0
Apart t ts = All (λ u. u ≢ t) ts

abbrev pub AllApart : List ℕ → Type 0
AllApart [] = Unit
AllApart (t ∷ ts) = Apart t ts × AllApart ts

-- Each thread links to the one behind it.
abbrev pub Linked : Links → List ℕ → Type 0
Linked next [] = Unit
Linked next (t ∷ ts) = (next t ≡ first ts) × Linked next ts

-- A list in memory holds these threads, in this order, each once.
pub record Holds (next : Links) (l : ThreadList) (ts : List ℕ) : Type 0 where
  pub at_head : l.head ≡ first ts
  pub at_tail : l.tail ≡ last ts
  pub linked : Linked next ts
  pub apart : AllApart ts

put_same : (next : Links) (t : ℕ) (v : Option ℕ) → put next t v t ≡ v
put_same next t v = rw (eq→== t t refl) refl

put_other : (next : Links) (t u : ℕ) (v : Option ℕ) → t ≢ u → put next t v u ≡ next u
put_other next t u v ne = rw (ne→== t u ne) refl

-- A store to a thread that is not on the list changes no link of it.
Linked-put :
    (next : Links) (t : ℕ) (v : Option ℕ) (ts : List ℕ)
    → Apart t ts
    → Linked next ts
    → Linked (put next t v) ts
Linked-put next t v [] a h = tt
Linked-put next t v (u ∷ ts) a h =
    (put_other next t u v (λ e. a.0 (sym e)) ∙ h.0, Linked-put next t v ts a.1 h.1)

pub Holds-put :
    (next : Links) (l : ThreadList) (ts : List ℕ) (t : ℕ) (v : Option ℕ)
    → Apart t ts
    → Holds next l ts
    → Holds (put next t v) l ts
Holds-put next l ts t v a h = record {
  at_head = h.at_head;
  at_tail = h.at_tail;
  linked = Linked-put next t v ts a h.linked;
  apart = h.apart;
}

first-append : (ts us : List ℕ) (t : ℕ) → first ((t ∷ ts) ++ us) ≡ some t
first-append ts us t = refl

last-append : (ts us : List ℕ) (u : ℕ) → last (ts ++ (u ∷ us)) ≡ last (u ∷ us)
last-append [] us u = refl
last-append (t ∷ []) us u = refl
last-append (t ∷ t' ∷ ts) us u = last-append (t' ∷ ts) us u

last-Apart : (t : ℕ) (ts : List ℕ) (m u : ℕ) → last (t ∷ ts) ≡ some m → Apart u (t ∷ ts) → m ≢ u
last-Apart t [] m u e a = λ h. a.0 (some_inj e ∙ h)
last-Apart t (t' ∷ ts) m u e a = last-Apart t' ts m u e a.1

Apart-left : (u : ℕ) (ts us : List ℕ) → Apart u (ts ++ us) → Apart u ts
Apart-left u [] us a = tt
Apart-left u (t ∷ ts) us a = (a.0, Apart-left u ts us a.1)

-- Two lists joined: the last of the first one links to the head of the second.
Linked-append :
    (next : Links) (t : ℕ) (ts us : List ℕ) (m : ℕ)
    → last (t ∷ ts) ≡ some m
    → AllApart ((t ∷ ts) ++ us)
    → Linked next (t ∷ ts)
    → Linked next us
    → Linked (put next m (first us)) ((t ∷ ts) ++ us)
Linked-append next t [] us m e a h k =
    let v : Option ℕ = first us in
    (
      ap (λ i. put next i v t) (sym (some_inj e)) ∙ put_same next t v,
      Linked-put next m v us (subst (λ i. Apart i us) (some_inj e) a.0) k,
    )
Linked-append next t (u ∷ ts) us m e a h k =
    let v : Option ℕ = first us in
    let ne : m ≢ t = last-Apart u ts m t e (Apart-left t (u ∷ ts) us a.0) in
    (put_other next m t v ne ∙ h.0, Linked-append next u ts us m e a.1 h.1 k)

last-some : (t : ℕ) (ts : List ℕ) → (m : ℕ) × (last (t ∷ ts) ≡ some m)
last-some t [] = (t, refl)
last-some t (u ∷ ts) = last-some u ts

-- `tlappend` joins two lists that share no thread: the first one then holds the threads of both, in
-- order.
pub tlappend-Holds :
    (next : Links) (l0 l1 : ThreadList) (ts us : List ℕ)
    → Holds next l0 ts
    → Holds next l1 us
    → AllApart (ts ++ us)
    → let (l, next') = tlappend l0 l1 next in Holds next' l (ts ++ us)
unfolding tlappend
tlappend-Holds next l0 l1 [] us h k a = rw h.at_tail k
tlappend-Holds next l0 l1 (t ∷ ts) [] h k a =
    let m = last-some t ts in
    rw (h.at_tail, m.1, k.at_head, append-nil ts)
      record { at_head = h.at_head; at_tail = sym m.1; linked = h.linked; apart = h.apart }
tlappend-Holds next l0 l1 (t ∷ ts) (u ∷ us) h k a =
    let m = last-some t ts in
    rw (h.at_tail, m.1, k.at_head)
      record {
        at_head = h.at_head;
        at_tail = k.at_tail ∙ sym (last-append (t ∷ ts) us u);
        linked = Linked-append next t ts (u ∷ us) m.0 m.1 a h.linked k.linked;
        apart = a;
      }

end-Apart : (u : ℕ) (ts : List ℕ) (t : ℕ) → Apart u (ts ++ (t ∷ [])) → t ≢ u
end-Apart u [] t a = a.0
end-Apart u (v ∷ ts) t a = end-Apart u ts t a.1

Apart-end : (ts : List ℕ) (t : ℕ) → AllApart (ts ++ (t ∷ [])) → Apart t ts
Apart-end [] t a = tt
Apart-end (u ∷ ts) t a = (λ e. end-Apart u ts t a.0 (sym e), Apart-end ts t a.1)

-- `tlinsert` puts a thread that is not on a list behind the others.
pub tlinsert-Holds :
    (next : Links) (l : ThreadList) (ts : List ℕ) (t : ℕ)
    → Holds next l ts
    → AllApart (ts ++ (t ∷ []))
    → let (l', next') = tlinsert l t next in Holds next' l' (ts ++ (t ∷ []))
unfolding tlinsert
tlinsert-Holds next l [] t h a =
    rw h.at_tail record {
      at_head = refl;
      at_tail = refl;
      linked = (put_same next t none, tt);
      apart = (tt, tt);
    }
tlinsert-Holds next l (u ∷ ts) t h a =
    let m = last-some u ts in
    rw (h.at_tail, m.1)
      record {
        at_head = h.at_head;
        at_tail = sym (last-append (u ∷ ts) [] t);
        linked =
            Linked-append (put next t none) u ts (t ∷ []) m.0 m.1 a
              (Linked-put next t none (u ∷ ts) (Apart-end (u ∷ ts) t a) h.linked)
              (put_same next t none, tt);
        apart = a;
      }

-- What `tlremove` leaves: without the head, or nothing from an empty list.
abbrev pub Removed : Links → ThreadList → List ℕ → Option (ℕ × ThreadList × Links) → Type 0
Removed next l [] none = Unit
Removed next l [] (some _) = ⊥
Removed next l (t ∷ ts) none = ⊥
Removed next l (t ∷ ts) (some (u, l', next')) = (u ≡ t) × Holds next' l' ts

-- `tlremove` takes the thread at the head off a list, and answers null on an empty one.
pub tlremove-Holds :
    (next : Links) (l : ThreadList) (ts : List ℕ)
    → Holds next l ts
    → Removed next l ts (tlremove l next)
unfolding tlremove unlinked
tlremove-Holds next l [] h = rw h.at_head tt
tlremove-Holds next l (t ∷ []) h =
    rw (h.at_head, h.linked.0)
      (refl, record { at_head = refl; at_tail = refl; linked = tt; apart = tt })
tlremove-Holds next l (t ∷ u ∷ ts) h =
    rw (h.at_head, h.linked.0)
      (
        refl,
        Holds-put next (record l { head = some u }) (u ∷ ts) t none h.apart.0
            (record {
              at_head = refl;
              at_tail = h.at_tail;
              linked = h.linked.1;
              apart = h.apart.1;
            }),
      )
