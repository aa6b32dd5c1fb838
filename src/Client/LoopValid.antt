-- ===== src/Client/LoopValid.antt =====
-- The loop of a client: no round panics, and a client that goes on is valid.
use gortsplib.Common.{
  ℕ, ◌≡◌, refl, sym, ◌∙◌, subst, Bool, true, false, not, Option, some, true-ne-false, is_some,
  if◌then◌else◌, arith,
}
use gortsplib.Common.Cases.{if_case}
use gortsplib.Session.{Writer, writer_nil, writer_idle, writer_running}
use gortsplib.Client.{
  Net, Config, Link, Client, is_reader, Reply, reply, nothing, failed, unfinished, options,
  get_parameter,
}
use gortsplib.Session.Valid.{has_writer}
use gortsplib.Client.Routines.{is_live}
use gortsplib.Client.Exchange.{do_skip, Act}
use gortsplib.Client.Describe.{Done}
use gortsplib.Client.Methods.{with_link, do_keep_alive}
use gortsplib.Client.Loop.{
  ClientEvent, options_called, describe_called, announce_called, setup_called, play_called,
  record_called, pause_called, check_timeout, keep_alive, writer_stopped, reader_stopped,
  server_request, closed, ClientRound, goes_on, ends, after_call, after_timer, writer_case,
  client_step,
}
use gortsplib.Client.LinkValid.{IsWhole, IsOpen, Acts, works, fails, do_skip-Acts}
use gortsplib.Client.CheckValid.{do_check_timeout-Keeps, do_check_timeout-Plays}
use gortsplib.Client.Plays.{Plays}
use gortsplib.Client.Valid.{is_initial, is_play, IsValid, Keeps, keeps, refuses}
use gortsplib.Client.DescribeValid.{do_describe-Keeps}
use gortsplib.Client.SetupValid.{do_setup-Keeps}
use gortsplib.Client.MethodsValid.{base-is_some, client_options-Keeps, do_announce-Keeps}
use gortsplib.Client.PlayValid.{is_pre_record, do_play-Keeps, do_record-Keeps}
use gortsplib.Client.PauseValid.{do_pause-Keeps}

-- The round does not panic. A client that goes on is valid, and has its reader if it has a connection;
-- one that ends has a writer exactly if it is live, as `doClose` needs it.
pub data Survives (d : Bool) : Option ClientRound → Type 0 where
  survives :
      (r : Reply) (c : Client) → IsValid d c → IsWhole c.link → Survives d (some (goes_on r c))
  stops :
      (r : Reply) (c : Client)
      → has_writer c.writer ≡ is_live c.state
      → Survives d (some (ends r c))

with_described-IsValid :
    {d : Bool} (e : Bool) (c : Client)
    → IsValid d c
    → (e ≡ true → is_some c.last_describe_url ≡ true)
    → IsValid e c
with_described-IsValid e c v h = record {
  writer = v.writer;
  decoder = v.decoder;
  started = v.started;
  keepalive = v.keepalive;
  check = v.check;
  transport = v.transport;
  based = v.based;
  linked = v.linked;
  apart = v.apart;
  described = h;
  whole = v.whole;
}

-- A client with an earlier DESCRIBE.
as_true :
    {d : Bool} (c : Client) → IsValid d c → is_some c.last_describe_url ≡ true → IsValid true c
as_true c v h = with_described-IsValid true c v (λ e. h)

forget : {o : Option ClientRound} → Survives true o → Survives false o
forget (survives r c v w) =
    survives r c (with_described-IsValid false c v (λ e. v.described refl)) w
forget (stops r c wr) = stops r c wr

module _ (net : Net) (cfg : Config) (bound default_range now : ℕ) where
  ended :
      {d : Bool} (r : Reply) (c : Client)
      → IsValid d c
      → (c.link.must_close ≡ false → IsWhole c.link)
      → Survives d (some (if c.link.must_close then ends r c else goes_on r c))
  ended {d} r c v w =
      if_case (λ x. Survives d (some x)) c.link.must_close (λ m. stops r c v.writer)
        (λ m. survives r c v (w m))

  after_call-Survives :
      {d : Bool} {o : Done} → Keeps d o → Survives d (after_call net cfg bound default_range now o)
  after_call-Survives {d} (keeps r c v w) = ended r c v (λ n. w)
  after_call-Survives {d} (refuses r c f v) = ended r c v v.whole

  timed :
      {d : Bool} (c : Client)
      → IsValid d c
      → is_play c.state ≡ true
      → IsValid d (record c { check_timeout_timer = true })
  timed c v p = record {
    writer = v.writer;
    decoder = v.decoder;
    started = v.started;
    keepalive = v.keepalive;
    check = λ h. p;
    transport = v.transport;
    based = v.based;
    linked = v.linked;
    apart = v.apart;
    described = v.described;
    whole = v.whole;
  }

  -- The timer of timeouts runs again.
  checked-Survives :
      {d : Bool} {o : Done}
      → Keeps d o
      → Plays o
      → Survives d (
          after_timer net cfg bound default_range now o
            (λ c. record c { check_timeout_timer = true }))
  checked-Survives (keeps (reply a) c v w) p = survives _ _ (timed c v (p refl)) w
  checked-Survives (keeps nothing c v w) p = survives _ _ (timed c v (p refl)) w
  checked-Survives (keeps (failed e) c v w) p = stops _ _ v.writer
  checked-Survives (keeps unfinished c v w) p = stops _ _ v.writer
  checked-Survives (refuses (reply a) c f v) p = absurd (true-ne-false (sym f))
  checked-Survives (refuses nothing c f v) p = absurd (true-ne-false (sym f))
  checked-Survives (refuses (failed e) c f v) p = stops _ _ v.writer
  checked-Survives (refuses unfinished c f v) p = stops _ _ v.writer

  alive :
      {d : Bool} (c : Client) (l : Link)
      → IsValid d c
      → c.keepalive_timer ≡ true
      → IsOpen l
      → IsValid d (record c { link = l; keepalive_timer = true })
  alive c l v k (n, r) = record {
    writer = v.writer;
    decoder = v.decoder;
    started = v.started;
    keepalive = sym k ∙ v.keepalive;
    check = v.check;
    transport = v.transport;
    based = v.based;
    linked = λ h. n;
    apart = v.apart;
    described = v.described;
    whole = λ h. r ∙ sym n;
  }

  -- The timer of keepalives runs again.
  kept_alive-Survives :
      {d : Bool} (c : Client) {o : Act}
      → IsValid d c
      → c.keepalive_timer ≡ true
      → is_initial c.state ≡ false
      → Acts true true o
      → Survives d (
          after_timer net cfg bound default_range now
            (with_link c o)
            (λ c1. record c1 { keepalive_timer = true }))
  kept_alive-Survives c v k h (works (reply a) l i p) =
      survives _ _ (alive c l v k p) (p.1 ∙ sym p.0)
  kept_alive-Survives c v k h (works nothing l i p) = survives _ _ (alive c l v k p) (p.1 ∙ sym p.0)
  kept_alive-Survives c v k h (works (failed e) l i p) = stops _ _ v.writer
  kept_alive-Survives c v k h (works unfinished l i p) = stops _ _ v.writer
  kept_alive-Survives c v k h (fails (reply a) l f n w) = absurd (true-ne-false (sym f))
  kept_alive-Survives c v k h (fails nothing l f n w) = absurd (true-ne-false (sym f))
  kept_alive-Survives c v k h (fails (failed e) l f n w) = stops _ _ v.writer
  kept_alive-Survives c v k h (fails unfinished l f n w) = stops _ _ v.writer

  -- RECORD needs a media that was set up; SETUP and the check of timeouts, which may switch to TCP,
  -- need a DESCRIBE before.
  abbrev pub Ready : Client → ClientEvent → Type 0
  Ready c record_called = is_pre_record c.state ≡ true → is_some c.effective_transport ≡ true
  Ready c (setup_called r) = is_some c.last_describe_url ≡ true
  Ready c (check_timeout received late) = is_some c.last_describe_url ≡ true
  Ready c _ = Unit

  -- A round of the loop of a valid client, whose connection has its reader, does not panic, whatever
  -- the server answers, if RECORD comes after a SETUP, and SETUP and the check of timeouts after a
  -- DESCRIBE. If the loop goes on, then with a valid client whose connection has its reader.
  pub client_step-Survives :
      (back : ℕ → Bool) (c : Client) (e : ClientEvent)
      → IsValid false c
      → IsWhole c.link
      → Ready c e
      → Survives false (client_step net cfg bound default_range now back c e)
  unfolding client_step do_keep_alive
  client_step-Survives back c (options_called u) v w h =
      after_call-Survives (client_options-Keeps net cfg u c v w)
  client_step-Survives back c (describe_called u) v w h =
      after_call-Survives (do_describe-Keeps net cfg bound u c v w)
  client_step-Survives back c (announce_called marshals u) v w h =
      after_call-Survives (do_announce-Keeps net cfg marshals u c v w)
  client_step-Survives back c (setup_called r) v w h =
      forget (after_call-Survives (do_setup-Keeps net cfg bound r c (as_true c v h) w))
  client_step-Survives back c (play_called range) v w h =
      after_call-Survives (do_play-Keeps net cfg now default_range range c v w)
  client_step-Survives back c record_called v w h =
      after_call-Survives (do_record-Keeps net cfg now c v w h)
  client_step-Survives back c pause_called v w h =
      after_call-Survives (do_pause-Keeps net cfg c v w)
  client_step-Survives back c (check_timeout received late) v w h =
      if_case (Survives false) c.check_timeout_timer
        (λ t. forget (
          checked-Survives
            (do_check_timeout-Keeps net cfg bound default_range now back received late c
              (as_true c v h) w (v.check t))
            (do_check_timeout-Plays net cfg bound default_range now back received late c
              (v.check t))))
        (λ t. survives _ _ v w)
  client_step-Survives back c keep_alive v w h =
      if_case (Survives false) c.keepalive_timer
        (λ t.
          let p : is_initial c.state ≡ false = ground (arith, v.keepalive, t) in
          let (u, e) = base-is_some net cfg c v p in
          let n = v.linked p in
          kept_alive-Survives c v t p (
            subst
              (λ o. Acts true true (
                do_skip net cfg (if c.link.use_get_parameter then get_parameter else options)
                  c.state c.conn_url o c.link))
              (sym e) (do_skip-Acts net cfg _ c.state c.conn_url u c.link (n, w ∙ n))))
        (λ t. survives _ _ v w)
  client_step-Survives back c writer_stopped v w h = by_writer c.writer
    where
      by_writer :
          (wr : Writer) → Survives false (some (writer_case net cfg bound default_range now c wr))
      by_writer writer_nil = survives _ _ v w
      by_writer (writer_idle n) = stops _ _ v.writer
      by_writer (writer_running n) = stops _ _ v.writer
  client_step-Survives back c reader_stopped v w h =
      if_case (Survives false) (is_reader c.link.reader) (λ r. stops _ _ v.writer)
        (λ r. survives _ _ v w)
  client_step-Survives back c (server_request is_options writes) v w h =
      if_case (Survives false) (not (is_reader c.link.reader)) (λ r. survives _ _ v w)
        (λ r.
          if_case (Survives false) (not is_options) (λ o. stops _ _ v.writer)
            (λ o.
              if_case (Survives false) writes (λ u. survives _ _ v w) (λ u. stops _ _ v.writer)))
  client_step-Survives back c closed v w h = stops _ _ v.writer
