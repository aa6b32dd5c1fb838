-- ===== src/Client/LiveValid.antt =====
-- PLAY, RECORD and PAUSE keep a client valid.
use gortsplib.Common.{
  ℕ, ◌≡◌, refl, sym, ap, ◌∙◌, Bool, true, false, not, ◌&&◌, Option, some, true-ne-false, is_some,
  if◌then◌else◌, arith,
}
use gortsplib.Common.Cases.{if_case, option_case}
use gortsplib.Session.{Writer, writer_nil}
use gortsplib.Session.Valid.{has_writer, transport_case}
use gortsplib.Client.{
  ClientState, client_pre_play, client_play, client_pre_record, same_client_state, Link, Client,
  is_reader, reader_nil, reader_on, Reader, allow_frames,
}
use gortsplib.Client.Routines.{is_live, start_transport_routines, stop_transport_routines}
use gortsplib.Client.LinkValid.{IsWhole, IsOpen}
use gortsplib.Client.Valid.{IsValid}

pub frames : (b : Bool) (r : Reader) → is_reader (allow_frames b r) ≡ is_reader r
frames b reader_nil = refl
frames b (reader_on a) = refl

abbrev pub is_paused : ClientState → Bool
is_paused client_pre_play = true
is_paused client_pre_record = true
is_paused _ = false

-- A live client, which is valid with every writer that is there.
pub data IsStarted (d : Bool) : Option Client → Type 0 where
  is_started :
      (c : Client)
      → ((w : Writer) → has_writer w ≡ true → IsValid d (record c { writer = w }))
      → IsOpen c.link
      → is_live c.state ≡ true
      → IsStarted d (some c)

-- The routines of a client that goes live, with what depends on the transport.
started-IsValid :
    {d : Bool} (c : Client) (live : ClientState) (l : Link) (w : Writer) (first : Bool) (last : ℕ)
    → IsValid d c
    → is_paused c.state ≡ true
    → is_live live ≡ true
    → is_some c.effective_transport ≡ true
    → has_writer w ≡ true
    → IsOpen l
    → IsValid d (record c {
      link = l;
      state = live;
      time_decoder = true;
      medias_started = true;
      keepalive_timer =
          if same_client_state live client_play && c.std_channel_setupped
          then true
          else c.keepalive_timer;
      check_timeout_timer =
          if same_client_state live client_play && c.std_channel_setupped
          then true
          else c.check_timeout_timer;
      check_timeout_initial = first;
      tcp_last_frame_time = last;
      writer = w;
    })
started-IsValid c live l w first last v s h t e p = record {
  writer = e ∙ sym h;
  decoder = sym h;
  started = sym h;
  keepalive = ground (arith, v.keepalive, s);
  check = λ q. ground (arith, v.check, s, q);
  transport = λ q. t;
  based = λ q. v.based (ground (arith, s));
  linked = λ q. p.0;
  apart = v.apart;
  described = v.described;
  whole = λ q. p.1 ∙ sym p.0;
}

pub start_transport_routines-IsStarted :
    {d : Bool} (now : ℕ) (c : Client) (live : ClientState)
    → IsValid d c
    → IsWhole c.link
    → is_paused c.state ≡ true
    → is_live live ≡ true
    → is_some c.effective_transport ≡ true
    → IsStarted d (start_transport_routines now (record c { state = live }))
unfolding start_transport_routines
start_transport_routines-IsStarted {d} now c live v w s h t =
    option_case (IsStarted d) c.effective_transport
      (λ e. absurd (true-ne-false (sym t ∙ ap is_some e)))
      (λ x e.
        transport_case (IsStarted d) x
          (λ u.
            is_started _
              (λ wr q. started-IsValid c live c.link wr _ c.tcp_last_frame_time v s h t q opened)
              opened h)
          (λ u.
            is_started _
              (λ wr q.
                started-IsValid c live c.link wr c.check_timeout_initial c.tcp_last_frame_time v s h
                  t q opened)
              opened h)
          (λ u.
            if_case (IsStarted d) (not (is_reader c.link.reader))
              (λ r. absurd (true-ne-false (ground (arith, r, opened.1))))
              (λ r.
                is_started _
                  (λ wr q.
                    started-IsValid c live _ wr c.check_timeout_initial _ v s h t q
                      (opened.0, frames true c.link.reader ∙ opened.1))
                  (opened.0, frames true c.link.reader ∙ opened.1) h)))
  where
    opened : IsOpen c.link
    opened = let n = v.linked (ground (arith, s)) in (n, w ∙ n)

pub ranged-IsValid :
    {d : Bool} (c : Client) (range : ℕ) → IsValid d c → IsValid d (record c { last_range = range })
ranged-IsValid c range v = record {
  writer = v.writer;
  decoder = v.decoder;
  started = v.started;
  keepalive = v.keepalive;
  check = v.check;
  transport = v.transport;
  based = v.based;
  linked = v.linked;
  apart = v.apart;
  described = v.described;
  whole = v.whole;
}

-- A live client that stops.
pub stopped-IsValid :
    {d : Bool} (c : Client) (before : ClientState)
    → IsValid d c
    → is_live c.state ≡ true
    → is_paused before ≡ true
    → IsValid d
        (record (stop_transport_routines (record c { writer = writer_nil })) { state = before })
unfolding stop_transport_routines
stopped-IsValid c before v h s = record {
  writer = ground (arith, s);
  decoder = ground (arith, s);
  started = ground (arith, s);
  keepalive = ground (arith, s);
  check = λ q. absurd (true-ne-false (sym q));
  transport = λ q. v.transport (ground (arith, h));
  based = λ q. v.based (ground (arith, h));
  linked = λ q. v.linked (ground (arith, h));
  apart = v.apart;
  described = v.described;
  whole = λ q. frames false c.link.reader ∙ v.whole q;
}
