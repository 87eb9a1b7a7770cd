-- ===== src/Agent/Client/Listing.antt =====
-- `get_all` of client.py gets every page.
use paperless_assistant.Base.{
  ℕ, suc, ◌≡◌, sym, ap, ◌∙◌, ◌⊎◌, inl, inr, false, String, none, some, List, [], ◌∷◌, ◌++◌, length,
  ◌==◌, nat_eq, string_eq, pair_eq,
}
use mathlib.Core.List.{append_assoc, append-nil}
use paperless_assistant.Agent.Client.{
  HttpSettings, Response, Served, Client, Requested, got, request,
}
use paperless_assistant.Agent.Client.Pages.{Page, complete, pages_loop, get_all}

module _ {A : Type 0} (http : HttpSettings) (server : ℕ → String → Served (Page A)) where
  -- whatever the client has seen, a request of the address is answered with the page in the end
  abbrev pub Serves : String → Page A → Type 0
  Serves url page =
      (c : Client)
      → (r : Response (Page A)) × (c' : Client) × (request http (λ n. server n url) c ≡ (got r, c'))
        × (r.body ≡ page)

  -- the pages from an address on, each of which names the next one, the last one none
  pub data Chain : String → List (Page A) → Type 0 where
    last :
        {url : String} (page : Page A) (pages : List (Page A))
        → Serves url page
        → (page.next ≡ none) ⊎ (page.next ≡ some "")
        → pages ≡ page ∷ []
        → Chain url pages
    more :
        {url : String} (page : Page A) (url' : String) (rest pages : List (Page A))
        → Serves url page
        → page.next ≡ some url'
        → (url' == "") ≡ false
        → Chain url' rest
        → pages ≡ page ∷ rest
        → Chain url pages

  abbrev pub all_results : List (Page A) → List A
  all_results [] = []
  all_results (page ∷ pages) = page.results ++ all_results pages

  pages_loop-last :
      (fuel : ℕ) (url : String) (page : Page A) (out : List A) (c : Client)
      → Serves url page
      → (page.next ≡ none) ⊎ (page.next ≡ some "")
      → (pages_loop http server (suc fuel) url out c).0 ≡ complete (out ++ page.results)
  unfolding pages_loop
  pages_loop-last fuel url page out c serves no_next =
      let (r, c', e, same) = serves c in
      let items = ap (λ (p : Page A). complete (out ++ p.results)) same in
      elim no_next [
        | inl absent ↦
            rw (e, pages_loop) (rw (ap (λ (p : Page A). p.next) same ∙ absent, pages_loop) items)
        | inr empty ↦
            rw (e, pages_loop) (rw (ap (λ (p : Page A). p.next) same ∙ empty, pages_loop) items)
      ]

  pages_loop-more :
      (fuel : ℕ) (url url' : String) (page : Page A) (out : List A) (c : Client)
      → Serves url page
      → page.next ≡ some url'
      → (url' == "") ≡ false
      → (c' : Client) × ((pages_loop http server (suc fuel) url out c).0
          ≡ (pages_loop http server fuel url' (out ++ page.results) c').0)
  unfolding pages_loop
  pages_loop-more fuel url url' page out c serves has_next not_empty =
      let (r, c', e, same) = serves c in
      let sent = (request http (λ n. server n url) c).1 in
      (
        c',
        rw (e, pages_loop)
            (rw (ap (λ (p : Page A). p.next) same ∙ has_next, pages_loop)
              (rw not_empty (
                ap (λ (p : Page A). (pages_loop http server fuel url' (out ++ p.results) sent).0)
                  same
                ∙ ap
                    (λ (x : Requested (Page A) × Client).
                      (pages_loop http server fuel url' (out ++ page.results) x.1).0)
                    e))),
      )

  pages_loop-all :
      (url : String) (pages : List (Page A)) (out : List A) (c : Client)
      → Chain url pages
      → (pages_loop http server (length pages) url out c).0 ≡ complete (out ++ all_results pages)
  pages_loop-all url pages out c (last page pages' serves no_next is_pages) = rw is_pages (
      pages_loop-last 0 url page out c serves no_next
      ∙ ap (λ (l : List A). complete (out ++ l)) (sym (append-nil page.results)))
  pages_loop-all url pages out c
        (more page url' rest pages' serves has_next not_empty chain is_pages) =
      let (c', e) = pages_loop-more (length rest) url url' page out c serves has_next not_empty in
      rw is_pages (
        e
        ∙ pages_loop-all url' rest (out ++ page.results) c' chain
        ∙ ap complete (append_assoc out page.results (all_results rest)))

-- get_all ends behind one request for each page, where the pages from its address on form a chain,
-- with the results of all of them in order, whatever retries the requests take.
pub get_all-all :
    {A : Type 0} (http : HttpSettings) (server : ℕ → String → Served (Page A)) (url : String)
    (pages : List (Page A)) (c : Client)
    → Chain http server url pages
    → (get_all http server (length pages) url c).0 ≡ complete (all_results http server pages)
unfolding get_all
get_all-all http server url pages c chain = pages_loop-all http server url pages [] c chain
