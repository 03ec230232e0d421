-- ===== src/Lib.antt =====
-- LandVault: a land registry. A web application keeps parcels of land, the documents that are
-- filed as evidence for them, and a trust score for each parcel.
--
-- The program's parts, and the files that model them:
--
-- * artifacts/api-server/src/routes, an Express server over two database tables, in Server.
--   Server/ParcelRoutes holds routes/parcels.ts, Server/EvidenceRoutes routes/evidence.ts,
--   Server/Dashboard routes/dashboard.ts, and Server/App routes/health.ts and routes/index.ts:
--   `handle` is the server as one function of a request. A route handler is a function by the
--   name of its method and table (`update_parcel` for `PATCH /parcels/:id`), and what follows a
--   query in it is a function of its own (`apply_updates`, `rescore`, `respond_updated`).
--   Server/Start is the port that index.ts reads.
--   `computeTrustScore` and the second computation of the score in `recalcTrustScore` are in
--   Server/Trust.
-- * lib/db/src/schema, the rows of the tables, in Server/Schema.
-- * artifacts/landvault-web/src/hooks/use-toast.ts, the notifications, in Toast. The module's
--   variables are the record `Store`; `dispatch` is `dispatch`, `expire` is what a timer does when
--   it runs out, and `render`, `subscribe` and `unmount` are `useToast` in a component.
-- * lib/api-client-react/src/custom-fetch.ts, the HTTP client, in Client: `prepare` is
--   `customFetch` up to its call of `fetch`, over the settings that `setBaseUrl` and
--   `setAuthTokenGetter` keep, and `receive` in Client/Reply is the rest of it, from the response
--   to the value or the error. What is read of a response is a list of UTF-16 units
--   (Client/Units), since messages are cut by units.
-- * lib/api-client-react/src/generated/api.ts, the generated client, in Client/Api: a function,
--   an address, a query key and the settings of a hook keep their names (`get_tenant`,
--   `get_get_tenant_url`), and Client/Api/Hooks has what the settings share. The hooks themselves
--   are in Client/Api/Uses (`use_get_tenant`), over `useQuery` and `useMutation` as parameters.
--   Client/Api/Operations makes one type of the functions, by which Client/Api/Sending runs each
--   through `prepare`.
-- * lib/api-zod/src/generated/api.ts, the zod schemas of the requests and answers, and
--   lib/api-client-react/src/generated/api.schemas.ts, the types of the client, in Schemas.
--   Schemas/Zod has zod's calls as data, and zod as a parameter with what it documents of parsing;
--   Schemas/Types has TypeScript's types and the values that have them; Schemas/Generated and
--   Schemas/Interfaces hold the two files, and Schemas/Contracts pairs them by operation. Names
--   keep theirs (`UpdateParcelBody` is `update_parcel_body`).
-- * backend/app, the server that the generated client calls, by the table of its routes alone, in
--   Client/Api/Routes.
-- * artifacts/landvault-web/src, the web application, in Web: Web/Start is what main.tsx imports
--   before the first view (lib/supabase-client.ts, lib/auth-context.tsx, lib/api-base-url.ts),
--   Web/Auth the session that AuthProvider keeps with the gate of RequireAuth, Web/App the routes
--   of App.tsx, and Web/Boundary components/error-boundary.tsx. The pages are in Web/SignIn
--   (pages/sign-in.tsx), Web/Verify (pages/verify.tsx), Web/Registry (pages/parcels/index.tsx and
--   the list of pages/dashboard.tsx), Web/NewParcel (pages/parcels/new.tsx), and Web/Detail with
--   Web/Detail/Upload (pages/parcels/detail.tsx and its EvidenceCard). A page is the record of its
--   `useState`, and what its visitor and the server do are steps (`Reached`) or lists of events.
-- * artifacts/mockup-sandbox, the preview of mockups, in Mockup: mockupPreviewPlugin.ts in
--   Mockup/Plugin, with `refresh` cut at its waits (`refresh`, `scan`, `resume`), and every order
--   of its steps in Mockup/Refresh; src/App.tsx in Mockup/Preview.
--
-- A handler is a function from the state of the database to a result and a state (Base/Attempt).
-- The result is a response or a throw; what was written before a throw stays written, as in the
-- source, which uses no transaction. Statements run one after another: the two queries that
-- `Promise.all` sends together only read. The database (drizzle over PostgreSQL) is a parameter,
-- Server/Database, with what SQL and the schema promise of its statements; Server/Database/Memory
-- is one that meets it. The columns' types are in it: `read_uuid` is what a uuid column makes of the
-- text of a path, so that two spellings of a uuid are one id, and `read_numeric` what the
-- numeric(12, 2) of an area makes of a numeral. The zod schemas of the routes are parameters too (Server/Contract), since
-- the routes are written against a version of lib/api-zod that the repository no longer holds; so
-- are the clock, the random numbers and the number formatting of the runtime.
--
-- A JavaScript number that is only stored has a type of its own; a score and a count is a natural
-- number.
--
-- The descriptions of schemas are left out, numbers are finite, and an index signature of unknown
-- values beside named properties is left out, since every object meets it.
--
-- A path of the server's routes is read as FastAPI documents it: a parameter takes one segment, and
-- the first route that fits serves the request. The parsing of an address by `fetch` and the decoding
-- of its path are left out: what is said of routes is said of ids that both leave as they are.
--
-- The constructor of `Headers` and what `set` stores of a token are parameters, which may throw.
--
-- Not modelled: the handlers of the Python service in backend; the types under
-- lib/api-zod/src/generated/types, which repeat the client's; the older frontend; the other
-- components of the web application, and all markup; the configuration of the server and its
-- log; what react-query, Express, drizzle, Supabase, Vite and the browser do, which are
-- parameters where the code relies on them.
pub mod Base
pub mod Server
pub mod Toast
pub mod Client
pub mod Mockup
pub mod Web
pub mod Schemas
mod Tests
