-- ===== src/Lirc/Handled.antt =====
-- Which handlers of a Router run.
use embd_project.Prelude.{
  ℕ, String, ◌≡◌, ◌⊎◌, refl, sym, subst, Bool, true, false, List, [], ◌∷◌, none, some, str_eq, ◌&&◌,
  if◌then◌else◌, arith, inl, inr, Bool-cases,
}
use mathlib.Core.List.{Mem, mem-cons_self, mem-cons_of_mem}
use text.Mathlib.TextEquality.{eq_iff}
use embd_project.Producers.{Event}
use embd_project.Lirc.{
  RemoteButton, Router, same_key, put_handler, find_handler, or_any, handle, matching, run_event,
}

find_handler-put_handler :
    (k j : RemoteButton) (h : ℕ) (l : List (RemoteButton × ℕ))
    → find_handler j (put_handler k h l) ≡ (if same_key k j then some h else find_handler j l)
unfolding find_handler put_handler
find_handler-put_handler (a, b) (c, d) h [] = refl
find_handler-put_handler (a, b) (c, d) h (((x, y), g) ∷ rest) = ground (
  arith,
  find_handler-put_handler (a, b) (c, d) h rest,
  eq_iff x c,
  eq_iff x a,
  eq_iff a c,
  eq_iff y b,
  eq_iff y d,
  eq_iff b d,
)

later-Mem : (b : Bool) (g h : ℕ) (l : List ℕ) → Mem h l → Mem h (if b then g ∷ l else l)
later-Mem true g h l m = mem-cons_of_mem g m
later-Mem false g h l m = m

-- The loop over the handlers calls the handler of a key that matches.
matching-Mem :
    (matches : String → String → Bool) (e : Event) (remote button : String) (h : ℕ)
    (l : List (RemoteButton × ℕ))
    → find_handler (remote, button) l ≡ some h
    → matches remote e.remote ≡ true
    → matches button e.button ≡ true
    → Mem h (matching matches e l)
unfolding find_handler matching
matching-Mem matches e remote button h [] found p q = ground (arith, found)
matching-Mem matches e remote button h (((x, y), g) ∷ rest) found p q =
    elim (Bool-cases (same_key (x, y) (remote, button))) [
      | inl s ↦ rw (first x remote (left s), first y button (right s), p, q, same s) mem-cons_self
      | inr s ↦
          later-Mem (matches x e.remote && matches y e.button) g h (matching matches e rest)
            (matching-Mem matches e remote button h rest (ground (arith, s, found)) p q)
    ]
  where
    first : (a b : String) → str_eq a b ≡ true → a ≡ b
    first a b t = (eq_iff a b).0 t

    left : same_key (x, y) (remote, button) ≡ true → str_eq x remote ≡ true
    left s = ground (arith, s)

    right : same_key (x, y) (remote, button) ≡ true → str_eq y button ≡ true
    right s = ground (arith, s)

    same : same_key (x, y) (remote, button) ≡ true → g ≡ h
    same s = ground (arith, s, found)

run_event-exact :
    (matches : String → String → Bool) (e : Event) (h : ℕ) (l : Router)
    → l.default_handler ≡ none
    → find_handler (e.remote, e.button) l.handlers ≡ some h
    → run_event matches e l ≡ h ∷ []
unfolding run_event
run_event-exact matches e h l idle found = rw (run_event, idle, found) refl

run_event-matching :
    (matches : String → String → Bool) (e : Event) (l : Router)
    → l.default_handler ≡ none
    → find_handler (e.remote, e.button) l.handlers ≡ none
    → run_event matches e l ≡ matching matches e l.handlers
unfolding run_event
run_event-matching matches e l idle free = rw (run_event, idle, free) refl

-- A handler that is registered with `Handle` runs on every event whose remote and button are those it
-- was registered for or, an empty name standing for `*`, match them as patterns, where there is no
-- default handler and no handler was registered before for exactly this remote and button.
pub run_event-handle :
    (matches : String → String → Bool) (e : Event) (remote button : String) (h : ℕ) (l : Router)
    → l.default_handler ≡ none
    → find_handler (e.remote, e.button) l.handlers ≡ none
    → (same_key (or_any remote, or_any button) (e.remote, e.button) ≡ true)
      ⊎ ((matches (or_any remote) e.remote ≡ true) × (matches (or_any button) e.button ≡ true))
    → Mem h (run_event matches e (handle remote button h l))
unfolding handle
run_event-handle matches e remote button h l idle free meant =
    elim (Bool-cases (same_key key (e.remote, e.button))) [
      | inl s ↦
          subst (λ o. Mem h o)
            (sym (run_event-exact matches e h (handle remote button h l) idle (exact s)))
            mem-cons_self
      | inr s ↦
          subst (λ o. Mem h o)
            (sym (run_event-matching matches e (handle remote button h l) idle (other s)))
            (matching-Mem matches e (or_any remote) (or_any button) h added put (patterns s meant).0
              (patterns s meant).1)
    ]
  where
    key : RemoteButton
    key = (or_any remote, or_any button)

    added : List (RemoteButton × ℕ)
    added = put_handler key h l.handlers

    stored : find_handler (e.remote, e.button) added ≡ (
        if same_key key (e.remote, e.button)
        then some h
        else find_handler (e.remote, e.button) l.handlers)
    stored = find_handler-put_handler key (e.remote, e.button) h l.handlers

    exact :
        same_key key (e.remote, e.button) ≡ true → find_handler (e.remote, e.button) added ≡ some h
    exact s = ground (arith, s, stored)

    other :
        same_key key (e.remote, e.button) ≡ false → find_handler (e.remote, e.button) added ≡ none
    other s = ground (arith, s, stored, free)

    put : find_handler key added ≡ some h
    put = ground (
      arith,
      find_handler-put_handler key key h l.handlers,
      eq_iff (or_any remote) (or_any remote),
      eq_iff (or_any button) (or_any button),
    )

    patterns :
        same_key key (e.remote, e.button) ≡ false
        → (same_key key (e.remote, e.button) ≡ true)
          ⊎ ((matches (or_any remote) e.remote ≡ true) × (matches (or_any button) e.button ≡ true))
        → (matches (or_any remote) e.remote ≡ true) × (matches (or_any button) e.button ≡ true)
    patterns s (inl t) = ground (arith, s, t)
    patterns s (inr m) = m
