-- ===== src/Network/Reads.antt =====
-- A request to read whose writers are the clients of the network.
use mathlib.Core.Option
use cse511_project.Prelude.{
  ℕ, zero, suc, ◌<◌, ◌≡◌, refl, ◌∙◌, sym, ap, subst, true, ◌&&◌, not, List, [], ◌∷◌, ◌++◌, Option,
  none, some, Text, arith, Option-cases, Bool-cases, inl, inr,
}
use mathlib.Core.Option.{some-injective, none-ne-some}
use cse511_project.Interval.{Interval}
use cse511_project.Interval.Laws.{has}
use cse511_project.TokenMap.{TokenMap, find}
use cse511_project.TokenMap.Order.{IsMap, find-none-Clear}
use cse511_project.TokenMap.Blocks.{token_at, token_at-find, Clear-token_at, hits}
use cse511_project.TokenMap.Cut.{Without}
use cse511_project.Metadata.{Holder, FileEntry, Mdm, responds}
use cse511_project.Metadata.Tokens.{
  Sent, revoke_writer, revoke_writers, read_message, ends_string, parse_request, exec_request_token,
  serve_request, grant_read,
}
use cse511_project.Metadata.Tokens.Writers.{Grants, revoke_writer-Cut}
use cse511_project.Metadata.Tokens.Requests.{Ready, with_entry, granted_lem, request_served}
use cse511_project.Network.{Conversation, Clients, reply_first, rights, converse}
use cse511_project.Network.Asked.{listens, AreOrdered, Lost, Nameable, ask-Replies}

-- The metadata manager knows every client that may write a block as the block's writer.
abbrev pub Known : (Holder → Option ℕ) → Text → TokenMap Holder → Clients → Type 0
Known at name m clients =
    (i b : ℕ)
    → rights name clients i b b'w' ≡ true
    → (h : Holder) × (token_at b m ≡ some h) × (at h ≡ some i)

module _ (at : Holder → Option ℕ) (name : Text) (x : Interval) (n : Nameable name x) where
  -- The state of the loop.
  pub record Fit (m : TokenMap Holder) (clients : Clients) : Type 0 where
    pub map : IsMap m
    pub ordered : AreOrdered name clients
    pub known : Known at name m clients

  -- One writer less.
  Fit-next :
      (m : TokenMap Holder) (clients clients' : Clients) (it : Interval × Holder) (response : Text)
      → Fit m clients
      → find x m ≡ some it
      → Grants response
      → Lost (at it.1) name x clients clients'
      → Fit (revoke_writer x it response m) clients'
  Fit-next m clients clients' it response fit e g lost =
      let cut = λ (b : ℕ). revoke_writer-Cut x m it n.range fit.map e response b g in
      record {
        map = (cut 0).0;
        ordered = lost.ordered;
        known = λ i b may.
            let before : rights name clients i b b'w' ≡ true =
              ground (arith, lost.rest i b b'w', may) in
            let (h, token, here) = fit.known i b before in
            elim (Bool-cases (has x b && has it.0 b)) [
              | inl q ↦
                  let same : h ≡ it.1 =
                    some-injective h it.1
                      (sym token ∙ token_at-find x 0 m it b fit.map e (ground (arith, q))) in
                  let asked : listens (at it.1) i ≡ true =
                    subst (λ o. listens o i ≡ true) (sym here ∙ ap at same) (ground arith) in
                  absurd (ground (arith, lost.rest i b b'w', may, asked, q))
              | inr q ↦ (h, ground (arith, (cut b).2, q, token), here)
            ];
      }

  -- What the loop gives.
  pub record Done (m m' : TokenMap Holder) (clients clients' : Clients) (replies : List Text)
      : Type 0 where
    pub fit : Fit m' clients'
    pub without : Without x m m'
    pub rest :
        (i b : ℕ) → rights name clients' i b b'w' ≡ (rights name clients i b b'w' && not (has x b))
    pub sent : Sent
    pub run : revoke_writers (read_message name x) x replies m ≡ some (m', [], sent)

  nothing-Done :
      (m : TokenMap Holder) (clients : Clients)
      → Fit m clients
      → find x m ≡ none
      → Done m m clients clients []
  unfolding revoke_writers
  nothing-Done m clients fit e =
      let free = find-none-Clear x 0 m fit.map e in
      record {
        fit = fit;
        without = (fit.map, λ b. ground (arith, Clear-token_at x b m free));
        rest = λ i b. elim (Bool-cases (rights name clients i b b'w')) [
          | inl q ↦
              let (h, token, here) = fit.known i b q in
              ground (arith, q, token, Clear-token_at x b m free)
          | inr q ↦ ground (arith, q)
        ];
        sent = [];
        run = rw (e, revoke_writers) refl;
      }

  one-Done :
      (m m' : TokenMap Holder) (clients next clients' : Clients) (it : Interval × Holder)
      (response : Text) (replies : List Text)
      → Fit m clients
      → find x m ≡ some it
      → Grants response
      → Lost (at it.1) name x clients next
      → Done (revoke_writer x it response m) m' next clients' replies
      → Done m m' clients clients' (response ∷ replies)
  unfolding revoke_writers
  one-Done m m' clients next clients' it response replies fit e g lost done =
      let cut = λ (b : ℕ). revoke_writer-Cut x m it n.range fit.map e response b g in
      record {
        fit = done.fit;
        without = (done.without.0, λ b. ground (arith, done.without.1 b, (cut b).2));
        rest = λ i b. ground (arith, done.rest i b, lost.rest i b b'w');
        sent = (read_message name x, it.1) ∷ done.sent;
        run = rw (e, revoke_writers) (rw done.run refl);
      }

  abbrev pub Converses : ℕ → TokenMap Holder → Clients → Type 0
  Converses k m clients =
      (replies : List Text) × (m' : TokenMap Holder) × (clients' : Clients) × (converse at k
          (read_message name x) x m clients
        ≡ some (replies, m', clients'))
      × Done m m' clients clients' replies

  -- The conversation ends: with more rounds than entries that the range touches.
  pub converse-Done :
      (k : ℕ) (m : TokenMap Holder) (clients : Clients)
      → Fit m clients
      → hits x m < k
      → Converses k m clients
  unfolding converse
  converse-Done zero m clients fit h = absurd (omega (arith, h))
  converse-Done (suc k) m clients fit h = elim (Option-cases (find x m)) [
    | inl e ↦ ([], m, clients, rw (e, converse) refl, nothing-Done m clients fit e)
    | inr (it, e) ↦
        let (response, next, asked, g, lost) = ask-Replies name x n at it.1 clients fit.ordered in
        let cut = revoke_writer-Cut x m it n.range fit.map e response 0 g in
        let (replies, m', clients', run, done) =
          converse-Done k (revoke_writer x it response m) next
            (Fit-next m clients next it response fit e g lost) (omega (arith, h, cut.1)) in
        (
          response ∷ replies,
          m',
          clients',
          rw (e, converse) (rw (asked, converse) (ap (Option.map (reply_first response)) run)),
          one-Done m m' clients next clients' it response replies fit e g lost done,
        )
  ]

  -- What a conversation that has ended has done.
  pub ended-Done :
      (m m' : TokenMap Holder) (clients clients' : Clients) (replies : List Text)
      → Fit m clients
      → converse at (suc (hits x m)) (read_message name x) x m clients
        ≡ some (replies, m', clients')
      → Done m m' clients clients' replies
  ended-Done m m' clients clients' replies fit run =
      let (rs, w, cs, run', done) = converse-Done (suc (hits x m)) m clients fit (omega arith) in
      let same : (rs, w, cs) ≡ (replies, m', clients') =
        some-injective (rs, w, cs) (replies, m', clients') (sym run' ∙ run) in
      subst (λ (out : Conversation). Done m out.1 clients out.2 out.0) same done

-- A request to read arrives, the metadata manager knows every client that may write a block of the file
-- as the block's writer, in every client the tokens of the file are in order, and the message fits a
-- client's buffer. Where the writers' revokers answer the metadata manager, the request gets its
-- response; the writers are those of before without the range; every client has lost its permission to
-- write in the range, and no other permission to write; and the metadata manager still knows every
-- client that may write. A client's permissions are those of its last entry with the file's name.
pub read_request_takes :
    (at : Holder → Option ℕ) (clients : Clients) (arguments : Text) (s : Mdm) (e : FileEntry)
    → Ready (parse_request arguments) s e
    → (parse_request arguments).mode ≡ b'r'
    → Nameable (parse_request arguments).file_name (parse_request arguments).interval
    → AreOrdered (parse_request arguments).file_name clients
    → Known at (parse_request arguments).file_name e.mdw_tokens clients
    → (replies : List Text) × (writers : TokenMap Holder) × (clients' : Clients) × (converse at
          (suc (hits (parse_request arguments).interval e.mdw_tokens))
          (read_message (parse_request arguments).file_name (parse_request arguments).interval)
          (parse_request arguments).interval
          e.mdw_tokens
          clients
        ≡ some (replies, writers, clients'))
      × (exec_request_token replies arguments s
          ≡ responds (ends_string (parse_request arguments).interval) (
              with_entry
                (parse_request arguments)
                (record e {
                  mdw_tokens = writers;
                  mdr_tokens =
                      e.mdr_tokens
                      ++ ((parse_request arguments).interval, (parse_request arguments).client)
                        ∷ [];
                })
                s))
      × Without (parse_request arguments).interval e.mdw_tokens writers
      × ((i b : ℕ)
          → rights (parse_request arguments).file_name clients' i b b'w' ≡ (
              rights (parse_request arguments).file_name clients i b b'w'
              && not (has (parse_request arguments).interval b)))
      × Known at (parse_request arguments).file_name writers clients'
unfolding serve_request grant_read
read_request_takes at clients arguments s e ready mode n ordered known =
    let r = parse_request arguments in
    let (replies, writers, clients', run, done) =
      converse-Done at r.file_name r.interval n (suc (hits r.interval e.mdw_tokens)) e.mdw_tokens
        clients (record { map = ready.ordered; ordered = ordered; known = known }) (omega arith) in
    (
      replies,
      writers,
      clients',
      run,
      request_served arguments s e ready replies
          ∙ rw mode (
              rw done.run (
                granted_lem r e
                  (record e {
                    mdw_tokens = writers;
                    mdr_tokens = e.mdr_tokens ++ (r.interval, r.client) ∷ [];
                  })
                  s ready.unlocked)),
      done.without,
      done.rest,
      done.fit.known,
    )
