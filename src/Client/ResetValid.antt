-- ===== src/Client/ResetValid.antt =====
-- `doClose` and `reset` do not panic, and a client that was reset is as good as new.
use gortsplib.Common.{
  ◌≡◌, refl, sym, ap, ◌∙◌, Bool, true, false, Option, none, some, [], true-ne-false, is_some, arith,
}
use gortsplib.Common.Cases.{if_case, option_case, some_case}
use gortsplib.Session.{Writer, writer_nil, writer_idle, writer_running}
use gortsplib.Session.Valid.{has_writer}
use gortsplib.Client.{
  client_initial, teardown, Net, Config, Link, Client, Reader, reader_nil, reader_on, is_reader,
  allow_frames,
}
use gortsplib.Client.Exchange.{Act}
use gortsplib.Client.Routines.{
  is_live, stop_transport_routines, destroy_writer, close_link, dropped, do_close, reset,
}
use gortsplib.Client.LinkValid.{IsWhole, Acts, works, fails, do_skip-Acts}
use gortsplib.Client.Valid.{IsValid}

-- The connection and its reader, the writer, the timers and the time decoder are gone.
data IsClosed (c : Client) : Option Client → Type 0 where
  closed :
      (c' : Client)
      → IsWhole c'.link
      → has_writer c'.writer ≡ false
      → c'.time_decoder ≡ false
      → c'.medias_started ≡ false
      → c'.keepalive_timer ≡ false
      → c'.check_timeout_timer ≡ false
      → c'.last_describe_url ≡ c.last_describe_url
      → IsClosed c (some c')

frames : (r : Reader) → is_reader (allow_frames false r) ≡ is_reader r
frames reader_nil = refl
frames (reader_on b) = refl

-- A client in the initial state.
pub data IsReset (d : Bool) : Option Client → Type 0 where
  is_reset :
      (c : Client)
      → IsValid d c
      → IsWhole c.link
      → c.state ≡ client_initial
      → is_some c.effective_transport ≡ false
      → IsReset d (some c)

module _ (net : Net) (cfg : Config) where
  close_link-IsClosed :
      (before c : Client)
      → IsWhole c.link
      → has_writer c.writer ≡ false
      → c.time_decoder ≡ false
      → c.medias_started ≡ false
      → c.keepalive_timer ≡ false
      → c.check_timeout_timer ≡ false
      → c.last_describe_url ≡ before.last_describe_url
      → IsClosed before (close_link net cfg c)
  unfolding close_link
  close_link-IsClosed before c w hw hd hm hk hc hu =
      if_case (IsClosed before) c.link.nconn
        (λ n.
          option_case (IsClosed before) c.base_url (λ e. drop c.link)
            (λ u e.
              after_teardown
                (do_skip-Acts net cfg teardown c.state c.conn_url u c.link (n, w ∙ n))))
        (λ n. drop c.link)
    where
      drop : (l : Link) → IsClosed before (some (dropped net cfg c l))
      drop l = closed (dropped net cfg c l) refl hw hd hm hk hc hu

      after_teardown :
          {o : Act}
          → Acts true true o
          → IsClosed before (elim o [ none ↦ none | some (r, l) ↦ some (dropped net cfg c l) ])
      after_teardown (works r l i p) = drop l
      after_teardown (fails r l h n m) = drop l

  pub destroy_writer-is_some :
      (c : Client)
      → has_writer c.writer ≡ true
      → destroy_writer net cfg c ≡ some (record c { writer = writer_nil })
  unfolding destroy_writer
  destroy_writer-is_some c h = by_writer c.writer h
    where
      by_writer :
          (w : Writer)
          → has_writer w ≡ true
          → (elim w as (λ x. Option Client) [
            | writer_nil ↦ none
            | writer_idle n ↦ some (record c { writer = writer_nil })
            | writer_running n ↦ some (record c { writer = writer_nil })
          ])
            ≡ some (record c { writer = writer_nil })
      by_writer writer_nil h = absurd (true-ne-false (sym h))
      by_writer (writer_idle n) h = refl
      by_writer (writer_running n) h = refl

  do_close-IsClosed :
      {d : Bool} (c : Client) → IsValid d c → IsWhole c.link → IsClosed c (do_close net cfg c)
  unfolding do_close stop_transport_routines
  do_close-IsClosed c v w =
      if_case (IsClosed c) (is_live c.state)
        (λ live.
          some_case (IsClosed c) (destroy_writer net cfg c) none
            (λ c'. close_link net cfg (stop_transport_routines c'))
            (destroy_writer-is_some c (v.writer ∙ live))
            (close_link-IsClosed c (stop_transport_routines (record c { writer = writer_nil }))
              whole refl refl refl refl refl refl))
        (λ n.
          close_link-IsClosed c c w (v.writer ∙ n) (v.decoder ∙ n) (v.started ∙ n)
            (ground (arith, v.keepalive, n)) (ground (arith, v.check, n)) refl)
    where
      whole : IsWhole (record c.link { reader = allow_frames false c.link.reader })
      whole = frames c.link.reader ∙ w

  pub reset-IsReset :
      {d : Bool} (c : Client) → IsValid d c → IsWhole c.link → IsReset d (reset net cfg c)
  unfolding reset
  reset-IsReset {d} c v w = from (do_close-IsClosed c v w)
    where
      from :
          {o : Option Client}
          → IsClosed c o
          → IsReset d (elim o [
            | none ↦ none
            | some c' ↦ some (record c' {
              state = client_initial;
              link = record c'.link {
                session = [];
                sender = false;
                cseq = 0;
                options_sent = false;
                use_get_parameter = false;
              };
              base_url = none;
              effective_transport = none;
              back_channel_setupped = false;
              std_channel_setupped = false;
              setupped_medias = [];
            })
          ])
      from (closed c' w hw hd hm hk hc hu) =
          is_reset _
            (record {
              writer = hw;
              decoder = hd;
              started = hm;
              keepalive = hk;
              check = λ h. absurd (true-ne-false (sym h ∙ hc));
              transport = λ h. h;
              based = λ h. absurd (true-ne-false h);
              linked = λ h. absurd (true-ne-false h);
              apart = λ h. tt;
              described = λ h. ap is_some hu ∙ v.described h;
              whole = λ h. w;
            })
            w refl refl
