-- ===== src/Client/DescribeValid.antt =====
-- `doDescribe` keeps a client valid.
use gortsplib.Common.{
  ℕ, zero, suc, refl, sym, ◌∙◌, Bool, false, not, ◌||◌, Option, none, some, [], ◌∷◌, ◌==◌,
}
use gortsplib.Common.Cases.{if_case, option_case}
use gortsplib.Client.{
  client_initial, client_pre_play, client_pre_record, check_client_state, Url, Description,
  content_missing, content_unsupported, sdp_bad, described, Answer, Net, Config, Client,
  content_type_missing, content_type_unsupported, sdp_invalid, base_url_invalid, invalid_url, reply,
  failed,
}
use gortsplib.Client.Exchange.{do_request}
use gortsplib.Client.Describe.{
  Done, on_answer, is_redirect, read_description, follow, describe_answered, do_describe,
}
use gortsplib.Client.LinkValid.{IsWhole, do_request-Acts}
use gortsplib.Client.Valid.{IsValid, Keeps, keeps, refuses, on_answer-Keeps, with_conn-Keeps}
use gortsplib.Client.ResetValid.{IsReset, is_reset, reset-IsReset}

-- The fields that no part of the invariant reads, and an URL of a DESCRIBE.
described-IsValid :
    {d : Bool} (c : Client) (u : Url)
    → IsValid d c
    → IsValid d (record c { last_describe_url = some u })
described-IsValid c u v = record {
  writer = v.writer;
  decoder = v.decoder;
  started = v.started;
  keepalive = v.keepalive;
  check = v.check;
  transport = v.transport;
  based = v.based;
  linked = v.linked;
  apart = v.apart;
  described = λ h. refl;
  whole = v.whole;
}

module _ (net : Net) (cfg : Config) where
  read_description-Keeps :
      {d : Bool} (u : Url) (a : Answer) (c : Client)
      → IsValid d c
      → IsWhole c.link
      → Keeps d (read_description net cfg u a c)
  unfolding read_description
  read_description-Keeps {d} u a c v w = by_body a.description
    where
      by_body :
          (b : Description)
          → Keeps d (elim b [
            | content_missing ↦ some (failed content_type_missing, c)
            | content_unsupported ↦ some (failed content_type_unsupported, c)
            | sdp_bad ↦ some (failed sdp_invalid, c)
            | described base ↦ elim base [
              | none ↦ some (reply a, record c { last_describe_url = some u })
              | some parsed ↦ elim parsed [
                | none ↦ some (failed base_url_invalid, c)
                | some b ↦ some (reply a, record c { last_describe_url = some u })
              ]
            ]
          ])
      by_body content_missing = refuses _ _ refl v
      by_body content_unsupported = refuses _ _ refl v
      by_body sdp_bad = refuses _ _ refl v
      by_body (described none) = keeps _ _ (described-IsValid c u v) w
      by_body (described (some none)) = refuses _ _ refl v
      by_body (described (some (some b))) = keeps _ _ (described-IsValid c u v) w

  -- A redirect is followed from a client that was reset.
  follow-Keeps :
      {d : Bool} (again : Url → Client → Done) (u : Url) (location : Option Url) (c : Client)
      → IsValid d c
      → IsWhole c.link
      → ((u' : Url) (c' : Client) → IsValid d c' → IsWhole c'.link → Keeps d (again u' c'))
      → Keeps d (follow net cfg again u location c)
  unfolding follow
  follow-Keeps {d} again u location c v w f = from (reset-IsReset net cfg c v w)
    where
      from :
          {o : Option Client}
          → IsReset d o
          → Keeps d (elim o [
            | none ↦ none
            | some c' ↦ elim location [
              | none ↦ some (failed invalid_url, c')
              | some ru ↦
                  again
                    (record ru { has_user = u.has_user || ru.has_user })
                    (record c' { conn_url = record ru { has_user = false } })
            ]
          ])
      from (is_reset c' v' w' s m) =
          option_case (Keeps d) location (λ e. refuses _ _ refl v')
            (λ ru e. f _ _ (moved c' ru v') w')
        where
          moved :
              (c' : Client) (ru : Url)
              → IsValid d c'
              → IsValid d (record c' { conn_url = record ru { has_user = false } })
          moved c' ru v' = record {
            writer = v'.writer;
            decoder = v'.decoder;
            started = v'.started;
            keepalive = v'.keepalive;
            check = v'.check;
            transport = v'.transport;
            based = v'.based;
            linked = v'.linked;
            apart = v'.apart;
            described = v'.described;
            whole = v'.whole;
          }

  describe_answered-Keeps :
      {d : Bool} (again : Url → Client → Done) (u : Url) (a : Answer) (c : Client)
      → IsValid d c
      → IsWhole c.link
      → ((u' : Url) (c' : Client) → IsValid d c' → IsWhole c'.link → Keeps d (again u' c'))
      → Keeps d (describe_answered net cfg again u a c)
  unfolding describe_answered
  describe_answered-Keeps {d} again u a c v w f =
      if_case (Keeps d) (a.status == 200) (λ e. read_description-Keeps u a c v w)
        (λ e.
          if_case (Keeps d) (is_redirect net cfg a)
            (λ r.
              option_case (Keeps d) a.location (λ n. refuses _ _ refl v)
                (λ location n. follow-Keeps again u location c v w f))
            (λ r. refuses _ _ refl v))

  -- `doDescribe` does not panic and keeps a client valid, in every state.
  pub do_describe-Keeps :
      {d : Bool} (k : ℕ) (u : Url) (c : Client)
      → IsValid d c
      → IsWhole c.link
      → Keeps d (do_describe net cfg k u c)
  unfolding do_describe
  do_describe-Keeps zero u c v w = refuses _ _ refl v
  do_describe-Keeps {d} (suc k) u c v w =
      if_case (Keeps d)
        (not
          (check_client_state (client_initial ∷ client_pre_play ∷ client_pre_record ∷ []) c.state))
        (λ h. refuses _ _ refl v)
        (λ h.
          with_conn-Keeps net cfg c
            (λ c1.
              on_answer (do_request net cfg c1.state c1.conn_url (some u) c1.link) c1
                (describe_answered net cfg (do_describe net cfg k) u))
            v w
            (λ l p v1.
              on_answer-Keeps (record c { link = l })
                (describe_answered net cfg (do_describe net cfg k) u) v1 p.0
                (do_request-Acts net cfg c.state c.conn_url u l p)
                (λ a l2 q v2.
                  describe_answered-Keeps (do_describe net cfg k) u a _ v2 (q.1 ∙ sym q.0)
                    (λ u' c' v' w'. do_describe-Keeps k u' c' v' w'))))
