-- ===== src/Agent/Client/Pages.antt =====
-- src/paperless_assistant/client.py: the paginated lists. `while url` runs on fuel, one round for each
-- page.
use paperless_assistant.Base.{
  ℕ, zero, suc, String, Option, none, some, List, [], ◌++◌, ◌==◌, nat_eq, string_eq, pair_eq,
  if◌then◌else◌,
}
use paperless_assistant.Agent.Client.{
  HttpSettings, Served, Client, got, http_error, exhausted, crashed, request,
}

-- the keys of a page's body
pub record Page (A : Type 0) : Type 0 where
  pub results : List A
  pub next : Option String

-- All items; an exception of `request`; or more pages than there is fuel.
pub data Listed (A : Type 0) : Type 0 where
  complete : List A → Listed A
  failed unfinished : Listed A

module _ {A : Type 0} (http : HttpSettings) (server : ℕ → String → Served (Page A)) where
  -- the loop of `get_all`, which is that of `iter_documents`
  unfoldable pub pages_loop : ℕ → String → List A → Client → Listed A × Client
  pages_loop zero url out c = (unfinished, c)
  pages_loop (suc fuel) url out c =
      let (answer, c') = request http (λ n. server n url) c in
      elim answer [
        | got r ↦
            let out' = out ++ r.body.results in
            elim r.body.next [
              | none ↦ (complete out', c')
              | some url' ↦
                  let more = pages_loop fuel url' out' c' in
                  if url' == "" then (complete out', c') else more
            ]
        | http_error status ↦ (failed, c')
        | exhausted ↦ (failed, c')
        | crashed ↦ (failed, c')
      ]

  unfoldable pub get_all : ℕ → String → Client → Listed A × Client
  unfolding pages_loop
  get_all fuel url c = pages_loop fuel url [] c
