-- ===== src/Client/Reachable.antt =====
-- The clients that the loop comes to are valid.
use gortsplib.Common.{ℕ, ◌≡◌, refl, sym, subst, Bool, false, Option, some, true-ne-false, some-inj}
use gortsplib.Client.{Url, Net, Config, Client, Reply}
use gortsplib.Client.Loop.{ClientEvent, ClientRound, goes_on, ends, client_step, new_client}
use gortsplib.Client.LinkValid.{IsWhole}
use gortsplib.Client.Valid.{IsValid}
use gortsplib.Client.LoopValid.{Survives, survives, stops, Ready, client_step-Survives}

module _ (net : Net) (cfg : Config) (bound default_range now : ℕ) where
  -- The clients between two rounds of the loop, from the one that `Start` makes.
  pub data Reachable (back : ℕ → Bool) : Client → Type 0 where
    opened : (u : Url) → Reachable back (new_client u)
    after :
        (c c' : Client) (e : ClientEvent) (r : Reply)
        → Reachable back c
        → Ready net cfg bound default_range now c e
        → client_step net cfg bound default_range now back c e ≡ some (goes_on r c')
        → Reachable back c'

  new_client-IsValid : (u : Url) → IsValid false (new_client u)
  new_client-IsValid u = record {
    writer = refl;
    decoder = refl;
    started = refl;
    keepalive = refl;
    check = λ h. absurd (true-ne-false (sym h));
    transport = λ h. absurd (true-ne-false (sym h));
    based = λ h. absurd (true-ne-false h);
    linked = λ h. absurd (true-ne-false h);
    apart = λ h. tt;
    described = λ h. absurd (true-ne-false (sym h));
    whole = λ h. refl;
  }

  went_on :
      {o : Option ClientRound} (r : Reply) (c : Client)
      → Survives false o
      → o ≡ some (goes_on r c)
      → IsValid false c × IsWhole c.link
  went_on r c (survives r' c' v w) e =
      subst
        (λ (x : ClientRound). elim x as (λ y. Type 0) [
          | goes_on q z ↦ IsValid false z × IsWhole z.link
          | ends q z ↦ Unit
        ])
        (some-inj e) (v, w)
  went_on r c (stops r' c' wr) e = absurd (
      subst (λ (x : ClientRound). elim x as (λ y. Type 0) [ goes_on q z ↦ ⊥ | ends q z ↦ Unit ])
        (some-inj e) tt)

  -- Every client that the loop comes to by rounds that are ready (RECORD after a SETUP, and SETUP and
  -- the check of timeouts after a DESCRIBE) is valid: writer, timers, medias and connection are as its
  -- state needs them, and over TCP no two medias share a channel.
  pub reached-IsValid :
      (back : ℕ → Bool) (c : Client) → Reachable back c → IsValid false c × IsWhole c.link
  reached-IsValid back c (opened u) = (new_client-IsValid u, refl)
  reached-IsValid back c' (after c c'' e r re h q) =
      let (v, w) = reached-IsValid back c re in
      went_on r c' (client_step-Survives net cfg bound default_range now back c e v w h) q
