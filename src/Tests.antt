-- ===== src/Tests.antt =====
-- Runs of the model on concrete inputs: the results of the development that have hypotheses, each at an
-- input that meets them.
mod World
mod Onion
mod Database
mod Proxy
mod Crawler
mod Api
mod Auth
mod Worker
mod Annotations
mod Libraries
mod Accounts
mod SignIn
mod Recovery
