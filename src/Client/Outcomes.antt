-- ===== src/Client/Outcomes.antt =====
-- What PLAY comes to: where the server answers it, and where OPTIONS was answered with 404.
use gortsplib.Common.{
  ℕ, ◌+◌, ◌≡◌, refl, sym, ap, ◌∙◌, subst, Bool, true, false, not, Option, none, some, List, [], ◌∷◌,
  true-ne-false, is_some, arith,
}
use gortsplib.Common.Cases.{if_case, option_case, some_case}
use gortsplib.Session.{Writer, writer_running}
use gortsplib.Session.Valid.{transport_case, has_writer}
use gortsplib.Client.{
  ClientState, client_pre_play, client_play, check_client_state, Url, invalid_state, SessionHeader,
  session_absent, session_invalid, session_given, Net, Config, Link, Client, is_reader, nothing,
  failed,
}
use gortsplib.Client.Exchange.{do_options, do_once, do_request}
use gortsplib.Client.Routines.{
  start_transport_routines, stop_transport_routines, create_writer, destroy_writer, run_writer,
}
use gortsplib.Client.Describe.{Done}
use gortsplib.Client.Methods.{on_client, roll_back, concluded, do_play}
use gortsplib.Client.LinkValid.{IsWhole, IsOpen}
use gortsplib.Client.Valid.{IsValid}
use gortsplib.Client.ResetValid.{destroy_writer-is_some}
use gortsplib.Client.LiveValid.{frames}

-- A client after `startTransportRoutines`, as far as a request reads it.
data Routines (c : Client) : Option Client → Type 0 where
  routines :
      (c1 : Client)
      → c1.state ≡ client_play
      → c1.base_url ≡ c.base_url
      → c1.link.options_sent ≡ c.link.options_sent
      → c1.link.sent ≡ c.link.sent
      → c1.link.session ≡ c.link.session
      → IsOpen c1.link
      → Routines c (some c1)

start_transport_routines-Routines :
    {d : Bool} (now : ℕ) (c : Client)
    → IsValid d c
    → IsWhole c.link
    → c.state ≡ client_pre_play
    → Routines c (start_transport_routines now (record c { state = client_play }))
unfolding start_transport_routines
start_transport_routines-Routines now c v w s =
    option_case (Routines c) c.effective_transport
      (λ e. absurd (true-ne-false (sym (v.transport (ground (arith, s))) ∙ ap is_some e)))
      (λ t e.
        transport_case (Routines c) t (λ u. routines _ refl refl refl refl refl opened)
          (λ u. routines _ refl refl refl refl refl opened)
          (λ u.
            if_case (Routines c) (not (is_reader c.link.reader))
              (λ r. absurd (true-ne-false (ground (arith, r, opened.1))))
              (λ r.
                routines _ refl refl refl refl refl
                  (opened.0, frames true c.link.reader ∙ opened.1))))
  where
    opened : IsOpen c.link
    opened = let n = v.linked (ground (arith, s)) in (n, w ∙ n)

module _ (net : Net) (cfg : Config) where
  -- Without an earlier OPTIONS, a request of a client that plays is not sent.
  request_refused :
      (s : ClientState) (conn_url : Url) (u : Option Url) (l : Link)
      → l.options_sent ≡ false
      → s ≡ client_play
      → do_request net cfg s conn_url u l ≡ some (failed invalid_state, l)
  unfolding do_request do_once do_options check_client_state
  request_refused s conn_url u l h e = ground (arith, h, e)

-- PLAY failed with an error of the state, and without a request; the client is in PrePlay again.
pub data IsRefused (c : Client) : Done → Type 0 where
  is_refused :
      (c' : Client)
      → c'.state ≡ client_pre_play
      → c'.link.sent ≡ c.link.sent
      → IsRefused c (some (failed invalid_state, c'))

abbrev pub is_running : Writer → Bool
is_running (writer_running n) = true
is_running _ = false

-- The session of the client after an answer with the header.
abbrev pub session_after : SessionHeader → List ℕ → List ℕ
session_after session_absent id = id
session_after session_invalid id = id
session_after (session_given id timeout) _ = id

abbrev pub IsReadable : SessionHeader → Type 0
IsReadable session_absent = Unit
IsReadable session_invalid = ⊥
IsReadable (session_given id timeout) = Unit

-- PLAY succeeded with one request, and the client plays with a writer that runs, in the session.
pub data IsPlaying (c : Client) (range : ℕ) (session : List ℕ) : Done → Type 0 where
  is_playing :
      (c' : Client)
      → c'.state ≡ client_play
      → is_running c'.writer ≡ true
      → c'.last_range ≡ range
      → c'.link.sent ≡ c.link.sent + 1
      → c'.link.session ≡ session
      → IsPlaying c range session (some (nothing, c'))

module _ (net : Net) (cfg : Config) where
  play_concluded-IsRefused :
      (c c1 : Client) (start : Client → Done)
      → c1.state ≡ client_play
      → c1.link.options_sent ≡ false
      → c1.link.sent ≡ c.link.sent
      → has_writer c1.writer ≡ true
      → IsRefused c (
          concluded net cfg client_pre_play
            (do_request net cfg c1.state c1.conn_url c1.base_url c1.link)
            c1
            start)
  unfolding concluded roll_back stop_transport_routines
  play_concluded-IsRefused c c1 start s h n wr =
      subst (λ o. IsRefused c (concluded net cfg client_pre_play o c1 start))
        (sym (request_refused net cfg c1.state c1.conn_url c1.base_url c1.link h s))
        (some_case (IsRefused c) (destroy_writer net cfg (record c1 { link = c1.link })) none
          (λ c2.
            some (
              failed invalid_state,
              record (stop_transport_routines c2) { state = client_pre_play },
            ))
          (destroy_writer-is_some net cfg _ wr) (is_refused _ refl n))

  -- PLAY of a valid client in the state PrePlay, for which no OPTIONS was answered with 200, fails with
  -- an error of the state, sends no request and leaves the client in PrePlay.
  pub do_play-IsRefused :
      {d : Bool} (now default_range : ℕ) (range : Option ℕ) (c : Client)
      → IsValid d c
      → IsWhole c.link
      → c.state ≡ client_pre_play
      → c.link.options_sent ≡ false
      → IsRefused c (do_play net cfg now default_range range c)
  unfolding do_play check_client_state create_writer
  do_play-IsRefused now default_range range c v w s h =
      if_case (IsRefused c) (not (check_client_state (client_pre_play ∷ []) c.state))
        (λ q. absurd (true-ne-false (ground (arith, q, s))))
        (λ q. from (start_transport_routines-Routines now c v w s))
    where
      ra : ℕ
      ra = elim range as (λ r. ℕ) [ none ↦ default_range | some r ↦ r ]

      from :
          {o : Option Client}
          → Routines c o
          → IsRefused c (
              on_client o (λ c1.
                let c2 = create_writer net cfg c1 in
                concluded net cfg client_pre_play
                  (do_request net cfg c2.state c2.conn_url c2.base_url c2.link)
                  c2
                  (λ c3.
                    on_client
                      (run_writer net cfg c3)
                      (λ c4. some (nothing, record c4 { last_range = ra })))))
      from (routines c1 e b x n y p) =
          play_concluded-IsRefused c (create_writer net cfg c1)
            (λ c3.
              on_client (run_writer net cfg c3)
                (λ c4. some (nothing, record c4 { last_range = ra })))
            e (x ∙ h) n refl
