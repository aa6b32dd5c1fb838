-- ===== src/Client/Valid.antt =====
-- What holds of a client between two calls.
use gortsplib.Common.{
  ◌≡◌, refl, sym, ◌∙◌, Bool, true, false, ◌&&◌, ◌||◌, Option, none, some, List, [], ◌∷◌,
  true-ne-false, is_some,
}
use gortsplib.Session.Valid.{is_tcp, has_writer}
use gortsplib.Client.{
  ClientState, client_initial, client_pre_play, client_play, client_record, ClientError, Answer,
  Net, Config, Link, ClientMedia, Client, Reply, reply, nothing, failed, unfinished,
}
use gortsplib.Client.Exchange.{Act}
use gortsplib.Client.Routines.{is_live}
use gortsplib.Client.Describe.{Done, on_answer, on_done, with_conn}
use gortsplib.Client.MediaApart.{ChannelsApart}
use gortsplib.Client.LinkValid.{
  is_failure, IsWhole, IsOpen, Acts, works, fails, Opens, opens, stays, conn_open-Opens,
}

abbrev pub is_initial : ClientState → Bool
is_initial client_initial = true
is_initial _ = false

abbrev pub is_play : ClientState → Bool
is_play client_play = true
is_play _ = false

-- The states that only a successful SETUP leads to, and Record.
abbrev pub needs_transport : ClientState → Bool
needs_transport client_pre_play = true
needs_transport client_play = true
needs_transport client_record = true
needs_transport _ = false

abbrev pub has_medias : List ClientMedia → Bool
has_medias [] = false
has_medias (cm ∷ cms) = true

-- A writer, started medias and a time decoder belong to the live states, the timer of keepalives
-- to playing with a channel that is not a back channel, that of timeouts to playing. A state other than the initial one has a connection and a
-- base URL. Over TCP, no two medias share a channel. If `d` is true, there was a DESCRIBE.
pub record IsValid (d : Bool) (c : Client) : Type 0 where
  pub writer : has_writer c.writer ≡ is_live c.state
  pub decoder : c.time_decoder ≡ is_live c.state
  pub started : c.medias_started ≡ is_live c.state
  pub keepalive : c.keepalive_timer ≡ (is_play c.state && c.std_channel_setupped)
  pub check : c.check_timeout_timer ≡ true → is_play c.state ≡ true
  pub transport :
      (needs_transport c.state || has_medias c.setupped_medias) ≡ true
      → is_some c.effective_transport ≡ true
  pub based : is_initial c.state ≡ false → is_some c.base_url ≡ true
  pub linked : is_initial c.state ≡ false → c.link.nconn ≡ true
  pub apart : is_tcp c.effective_transport ≡ true → ChannelsApart c.setupped_medias
  pub described : d ≡ true → is_some c.last_describe_url ≡ true
  pub whole : c.link.must_close ≡ false → IsWhole c.link

-- The method returned, without a panic, and the client is valid; if there was no failure, the
-- connection has its reader.
pub data Keeps (d : Bool) : Done → Type 0 where
  keeps : (r : Reply) (c : Client) → IsValid d c → IsWhole c.link → Keeps d (some (r, c))
  refuses : (r : Reply) (c : Client) → is_failure r ≡ true → IsValid d c → Keeps d (some (r, c))

-- Another link in the place of the client's.
pub with_link-IsValid :
    {d : Bool} (c : Client) (l : Link)
    → IsValid d c
    → (c.link.nconn ≡ true → l.nconn ≡ true)
    → (l.must_close ≡ false → IsWhole l)
    → IsValid d (record c { link = l })
with_link-IsValid c l v n w = record {
  writer = v.writer;
  decoder = v.decoder;
  started = v.started;
  keepalive = v.keepalive;
  check = v.check;
  transport = v.transport;
  based = v.based;
  linked = λ h. n (v.linked h);
  apart = v.apart;
  described = v.described;
  whole = w;
}

pub open-IsValid :
    {d : Bool} (c : Client) (l : Link) → IsValid d c → IsOpen l → IsValid d (record c { link = l })
open-IsValid c l v (n, r) = with_link-IsValid c l v (λ h. n) (λ h. r ∙ sym n)

pub on_answer-Keeps :
    {d b : Bool} (c : Client) {o : Act} (k : Answer → Client → Done)
    → IsValid d c
    → c.link.nconn ≡ b
    → Acts b false o
    → ((a : Answer) (l : Link)
        → IsOpen l
        → IsValid d (record c { link = l })
        → Keeps d (k a (record c { link = l })))
    → Keeps d (on_answer o c k)
on_answer-Keeps c k v e (works (reply a) l i p) f = f a l p (open-IsValid c l v p)
on_answer-Keeps c k v e (works nothing l i p) f = absurd (true-ne-false (sym i))
on_answer-Keeps c k v e (works (failed x) l i p) f = absurd (true-ne-false (sym i))
on_answer-Keeps c k v e (works unfinished l i p) f = absurd (true-ne-false (sym i))
on_answer-Keeps c k v e (fails (reply a) l h n w) f = absurd (true-ne-false (sym h))
on_answer-Keeps c k v e (fails nothing l h n w) f = absurd (true-ne-false (sym h))
on_answer-Keeps c k v e (fails (failed x) l h n w) f =
    refuses _ _ refl (with_link-IsValid c l v (λ q. n (sym e ∙ q)) w)
on_answer-Keeps c k v e (fails unfinished l h n w) f =
    refuses _ _ refl (with_link-IsValid c l v (λ q. n (sym e ∙ q)) w)

pub on_done-Keeps :
    {d : Bool} {o : Done} (k : Client → Done)
    → Keeps d o
    → ((c : Client) → IsValid d c → IsWhole c.link → Keeps d (k c))
    → Keeps d (on_done o k)
on_done-Keeps k (keeps (reply a) c v w) f = f c v w
on_done-Keeps k (keeps nothing c v w) f = f c v w
on_done-Keeps k (keeps (failed e) c v w) f = keeps _ _ v w
on_done-Keeps k (keeps unfinished c v w) f = keeps _ _ v w
on_done-Keeps k (refuses (reply a) c h v) f = absurd (true-ne-false (sym h))
on_done-Keeps k (refuses nothing c h v) f = absurd (true-ne-false (sym h))
on_done-Keeps k (refuses (failed e) c h v) f = refuses _ _ refl v
on_done-Keeps k (refuses unfinished c h v) f = refuses _ _ refl v

module _ (net : Net) (cfg : Config) where
  pub with_conn-Keeps :
      {d : Bool} (c : Client) (k : Client → Done)
      → IsValid d c
      → IsWhole c.link
      → ((l : Link)
          → IsOpen l
          → IsValid d (record c { link = l })
          → Keeps d (k (record c { link = l })))
      → Keeps d (with_conn net cfg c k)
  with_conn-Keeps {d} c k v w f = connected _ (conn_open-Opens net cfg c.conn_url c.link w)
    where
      connected :
          (o : Option ClientError × Link)
          → Opens net cfg c.link o
          → Keeps d (elim o.0 [
            | some e ↦ some (failed e, record c { link = o.1 })
            | none ↦ k (record c { link = o.1 })
          ])
      connected _ (opens l p) = f l p (open-IsValid c l v p)
      connected _ (stays e) = refuses _ _ refl v
