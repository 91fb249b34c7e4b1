-- ===== src/NodeIo/Merge.antt =====
-- `merge_clients` of src/io.c, for the clients of two ranges that are merged.
use epx_c.Base.{◌≡◌, refl, ap, ◌∙◌, false, List, [], ◌∷◌, All, ◌==◌, if◌then◌else◌, arith}
use epx_c.NodeIo.Clients.{Client, fill_places, add_clients}

-- every place has a client
IsFilled : List Client → Type 0
IsFilled ts = All (λ t. (t.expires == 0) ≡ false) ts

fill_places-IsFilled :
    (a : Client) (ts : List Client) → (a.expires == 0) ≡ false → IsFilled (fill_places a ts)
unfolding fill_places IsFilled
fill_places-IsFilled a [] h = tt
fill_places-IsFilled a (t ∷ ts) h = ground (arith, fill_places-IsFilled a ts)

fill_places-same : (a : Client) (ts : List Client) → IsFilled ts → fill_places a ts ≡ ts
unfolding fill_places IsFilled
fill_places-same a [] h = refl
fill_places-same a (t ∷ ts) h = ground (arith, fill_places-same a ts)

add_clients-same : (cs ts : List Client) → IsFilled ts → add_clients cs ts ≡ ts
unfolding add_clients
add_clients-same [] ts h = refl
add_clients-same (c ∷ cs) ts h = ground (arith, fill_places-same c ts h, add_clients-same cs ts h)

-- The first of a range's clients takes all the places that are free, so that the others are lost.
pub add_clients-first_only :
    (a : Client) (cs ts : List Client)
    → (a.expires == 0) ≡ false
    → add_clients (a ∷ cs) ts ≡ fill_places a ts
unfolding add_clients
add_clients-first_only a cs ts h =
    ap (λ b. add_clients cs (if b then ts else fill_places a ts)) h
    ∙ add_clients-same cs (fill_places a ts) (fill_places-IsFilled a ts h)
